-- ===== src/Api/Listings.antt =====
-- What a user is shown: tunnels and clients of the user.
use nexus_link.Base.{String, ◌≡◌, refl, ap, ◌∙◌, ◌⊎◌, inl, inr}
use nexus_link.Base.{Bool, true, false, ◌&&◌, Option, none, some, List, [], ◌∷◌, arith}
use nexus_link.Base.{Bool-cases, Option-cases, &&-true, ◌==◌, Eq-nat, Eq-string, Eq-bytes, Eq-pair}
use nexus_link.Base.{keep, any, All}
use nexus_link.Base.Rows.{any-keep, keep_ext}
use nexus_link.Store.Tables.{Client, Proxy, Store}
use nexus_link.Store.Clients.{get_client, list_clients_by_owner}
use nexus_link.Store.Listing.{list_proxies}
use nexus_link.Server.Listing.{list_clients_traffic}
use nexus_link.Web.Access.{ApiIdentity, can_access_client}
use nexus_link.Web.Tenancy.{access-user}
use nexus_link.Api.State.{
  with_store-some, Panel, web_of, http_get, tunnel_list, own_clients, Faults, answer, refuse,
}
use nexus_link.Api.Proxies.{
  Filter, allows, is_active, visible_rows, list_tunnels, ProxyRequest, v1_handle_proxies,
}
use nexus_link.Base.Dict.{is_some, lookup}
use nexus_link.Api.Filters.{IsAsked, allows-IsAsked}
use nexus_link.Api.Clients.{ClientRequest, owned_clients, rows_of_user, v1_handle_clients}

-- the client of a tunnel is the user's
abbrev pub IsOwn : String → Store → Proxy → Type 0
IsOwn username db x =
    (c : Client) × (get_client false x.client_name db ≡ some (some c)) × (c.owner ≡ username)

can_access-IsOwn :
    (fault : Bool) (id : ApiIdentity) (x : Proxy) (db : Store) (p : Panel)
    → p.server.store ≡ some db
    → id.admin ≡ false
    → can_access_client fault id x.client_name (web_of p) ≡ true
    → IsOwn id.username db x
unfolding web_of can_access_client get_client
can_access-IsOwn false id x db p e a h = (access-user id x.client_name db (web_of p) a e).0 h
can_access-IsOwn true id x db p e a h = absurd (ground (arith, a, e, h))

visible_rows-IsOwn :
    (row_fault : Proxy → Bool) (id : ApiIdentity) (q : Filter) (db : Store) (p : Panel)
    → p.server.store ≡ some db
    → id.admin ≡ false
    → (xs : List Proxy)
    → All
        (λ r.
          IsOwn id.username db r.0
          × IsAsked q r.0 r.1
          × (r.1 ≡ is_some (lookup r.0.name p.server.proxies)))
        (visible_rows row_fault id q p xs)
unfolding visible_rows
visible_rows-IsOwn row_fault id q db p e a [] = tt
visible_rows-IsOwn row_fault id q db p e a (x ∷ xs) =
    let rest = visible_rows-IsOwn row_fault id q db p e a xs in
    let seen = can_access_client (row_fault x) id x.client_name (web_of p) in
    elim (Bool-cases (seen && allows q x (is_active p x))) [
      | inr t ↦ rw (t, visible_rows) rest
      | inl t ↦
          let (s, w) : (seen ≡ true) × (allows q x (is_active p x) ≡ true) =
            &&-true seen (allows q x (is_active p x)) t in
          rw (t, visible_rows)
            (
              (
                can_access-IsOwn (row_fault x) id x db p e a s,
                allows-IsAsked q x (is_active p x) w,
                refl,
              ),
              rest,
            )
    ]

-- A user who lists the tunnels is shown only tunnels of clients that the user owns, and of these
-- only such as the filters of the request ask for, each with whether the server has a tunnel of its
-- name, or gets the status 500; the panel stays as it is. Any calls of the database may fail.
pub v1_handle_proxies-IsOwn :
    (f : Faults) (row_fault : Proxy → Bool) (now : String) (id : ApiIdentity) (q : Filter)
    (body : Option ProxyRequest) (db : Store) (p : Panel)
    → p.server.store ≡ some db
    → id.admin ≡ false
    → (v1_handle_proxies f row_fault now id http_get q body p ≡ refuse 500 p)
      ⊎ ((rows : List (Proxy × Bool)) × (v1_handle_proxies f row_fault now id http_get q body p
            ≡ answer (tunnel_list rows) p)
          × All
              (λ r.
                IsOwn id.username db r.0
                × IsAsked q r.0 r.1
                × (r.1 ≡ is_some (lookup r.0.name p.server.proxies)))
              rows)
unfolding v1_handle_proxies
v1_handle_proxies-IsOwn f row_fault now id q body db p e a =
    let opened =
      with_store-some db p (λ db'. list_tunnels row_fault id q (list_proxies f.list db') p) e in
    elim (Option-cases (list_proxies f.list db)) [
      | inr n ↦ inl (opened ∙ rw (n, list_tunnels) refl)
      | inl (xs, n) ↦ inr (
        visible_rows row_fault id q p xs,
        opened ∙ rw (n, list_tunnels) refl,
        visible_rows-IsOwn row_fault id q db p e a xs,
      )
    ]

owned_with_store :
    (username : String) (db : Store) (p : Panel)
    → p.server.store ≡ some db
    → owned_clients false username p ≡ keep (λ c. c.owner == username) db.clients
unfolding owned_clients list_clients_by_owner
owned_with_store username db p e =
    ap {A = Option Store}
      (λ o. elim o as (λ _. List Client) [
        | none ↦ []
        | some db' ↦ keep (λ c. c.owner == username) db'.clients
      ])
      e

rows_of_user-owned :
    (traffic_fault : Bool) (username : String) (db : Store) (p : Panel)
    → p.server.store ≡ some db
    → rows_of_user traffic_fault false username p
      ≡ keep
          (λ i. any (λ c. c.owner == username && c.name == i.name) db.clients)
          (list_clients_traffic traffic_fault p.server)
unfolding rows_of_user
rows_of_user-owned traffic_fault username db p e =
    keep_ext (λ i. any (λ c. c.name == i.name) (owned_clients false username p)) _
      (list_clients_traffic traffic_fault p.server)
      (λ i.
        ap (any (λ c. c.name == i.name)) (owned_with_store username db p e)
        ∙ any-keep (λ c. c.name == i.name) (λ c. c.owner == username) db.clients)

-- A user who lists the clients is shown, of all clients that the server knows, those whose name is that
-- of a client that the user owns in the database, if the query for these does not fail; the panel stays
-- as it is.
pub v1_handle_clients-owned :
    (f : Faults) (now : String) (id : ApiIdentity) (body : Option ClientRequest) (db : Store)
    (p : Panel)
    → f.read ≡ false
    → p.server.store ≡ some db
    → id.admin ≡ false
    → v1_handle_clients f now id http_get body p
      ≡ answer
          (own_clients (
            keep
              (λ i. any (λ c. c.owner == id.username && c.name == i.name) db.clients)
              (list_clients_traffic f.list p.server)))
          p
unfolding v1_handle_clients
v1_handle_clients-owned f now id body db p r e a =
    rw (a, v1_handle_clients)
      (ap (λ rows. answer (own_clients rows) p)
        (ap (λ b. rows_of_user f.list b id.username p) r
          ∙ rows_of_user-owned f.list id.username db p e))
