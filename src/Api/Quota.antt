-- ===== src/Api/Quota.antt =====
-- The limit of a client on its tunnels, and what keeps it.
use nexus_link.Base.{ℕ, suc, ◌+◌, ◌≤◌, ◌<◌, String, ◌≡◌, refl, sym, ap, ◌∙◌, inl, inr}
use nexus_link.Base.{
  Bool, false, not, ◌&&◌, ◌||◌, Option, none, some, List, [], ◌∷◌, ◌++◌, arith, ltb, leb,
  if◌then◌else◌,
}
use nexus_link.Base.{Bool-cases, Option-cases, ◌==◌, Eq-nat, Eq-string, Eq-bytes, Eq-pair}
use nexus_link.Base.{length, keep}
use mathlib.Core.Path.{subst}
use nexus_link.Base.Dict.{is_some}
use nexus_link.Base.Tables.{find}
use nexus_link.Store.Tables.{Client, Proxy, Store}
use nexus_link.Store.Clients.{has_name, get_client}
use nexus_link.Store.Tunnels.{is_tunnel_of, create_proxy, list_proxies_by_client}
use nexus_link.Web.Access.{ApiIdentity, can_access_client}
use nexus_link.Api.State.{Panel, web_of, http_post, Reply, Faults, refuse, with_store-some}
use nexus_link.Api.Proxies.{
  Filter, ProxyRequest, checked_request, over_quota, row_of, tunnel_created, create_tunnel,
  post_tunnel, v1_handle_proxies,
}

-- the enabled tunnels of a client
unfoldable pub enabled_tunnels : String → Store → ℕ
enabled_tunnels name db = length (keep (λ x. x.client_name == name && x.enabled) db.proxies)

-- every client with a limit has at most so many enabled tunnels
abbrev pub WithinLimit : Store → Type 0
WithinLimit db =
    (name : String) (c : Client)
    → get_client false name db ≡ some (some c)
    → 0 < c.max_tunnels
    → enabled_tunnels name db ≤ c.max_tunnels

length-keep-append :
    (q : Proxy → Bool) (xs : List Proxy) (y : Proxy)
    → length (keep q (xs ++ (y ∷ [])))
      ≡ (if q y then suc (length (keep q xs)) else length (keep q xs))
length-keep-append q [] y = ground arith
length-keep-append q (x ∷ xs) y = elim (Bool-cases (q x)) [
  | inl t ↦ ground (arith, t, length-keep-append q xs y)
  | inr t ↦ ground (arith, t, length-keep-append q xs y)
]

-- after a reply, the limits of the clients hold
pub record Limited (r : Reply) : Type 0 where
  pub after : Store
  pub stored : r.1.1.server.store ≡ some after
  pub within : WithinLimit after

refuse-Limited :
    (status : ℕ) (db : Store) (p : Panel)
    → p.server.store ≡ some db
    → WithinLimit db
    → Limited (refuse status p)
refuse-Limited status db p e w = record { after = db; stored = e; within = w }

tunnel_created-Limited :
    (client : String) (o : Option ℕ × Store) (db : Store) (p : Panel)
    → p.server.store ≡ some db
    → WithinLimit db
    → ((n : ℕ) → o.0 ≡ some n → WithinLimit o.1)
    → Limited (tunnel_created client o p)
unfolding tunnel_created
tunnel_created-Limited client (none, after) db p e w k = refuse-Limited 409 db p e w
tunnel_created-Limited client (some n, after) db p e w k = record {
  after = after;
  stored = refl;
  within = k n refl;
}

-- a client with a limit that is not used up
under_limit :
    (name : String) (c : Client) (db : Store)
    → over_quota false false name db ≡ false
    → get_client false name db ≡ some (some c)
    → 0 < c.max_tunnels
    → enabled_tunnels name db < c.max_tunnels
unfolding over_quota list_proxies_by_client enabled_tunnels
under_limit name c db o g b =
    let used : over_quota false false name db ≡ (
        ltb 0 c.max_tunnels
        && leb c.max_tunnels (length (keep (λ x. x.client_name == name && x.enabled) db.proxies))) =
      rw (g, over_quota) refl in
    ground (arith, sym used ∙ o, b)

added-WithinLimit :
    (x : Proxy) (db after : Store)
    → after.clients ≡ db.clients
    → after.proxies ≡ db.proxies ++ (x ∷ [])
    → over_quota false false x.client_name db ≡ false
    → WithinLimit db
    → WithinLimit after
unfolding enabled_tunnels get_client
added-WithinLimit x db after ec ep o w name c g b =
    let g' : get_client false name db ≡ some (some c) =
      ap (λ cs. some (find (has_name name) cs)) (sym ec) ∙ g in
    let old = w name c g' b in
    let more = length-keep-append (λ y. y.client_name == name && y.enabled) db.proxies x in
    rw ep (elim (Bool-cases (x.client_name == name)) [
      | inr t ↦ ground (arith, t, old, more)
      | inl t ↦
          let e : x.client_name ≡ name = (Eq-string.same_iff x.client_name name).0 t in
          let below =
            under_limit name c db (subst (λ n. over_quota false false n db ≡ false) e o) g' b in
          ground (arith, t, old, more, below)
    ])

-- a new tunnel under a limit that is not used up
create_proxy-WithinLimit :
    (fault : Bool) (now : String) (x : Proxy) (db : Store)
    → over_quota false false x.client_name db ≡ false
    → WithinLimit db
    → WithinLimit (create_proxy fault now x db).1
unfolding create_proxy
create_proxy-WithinLimit fault now x db o w =
    elim (Bool-cases (fault || is_some (find (is_tunnel_of x.client_name x.name) db.proxies))) [
      | inl t ↦ rw (t, create_proxy) w
      | inr t ↦
          rw (t, create_proxy)
            (added-WithinLimit (record x { id = db.proxy_seq + 1; created_at = now }) db _ refl refl
              o w)
    ]

create_tunnel-Limited :
    (f : Faults) (now : String) (id : ApiIdentity) (r : ProxyRequest) (db : Store) (p : Panel)
    → f.read ≡ false
    → f.list ≡ false
    → p.server.store ≡ some db
    → WithinLimit db
    → Limited (create_tunnel f now id r db p)
unfolding create_tunnel
create_tunnel-Limited f now id r db p fr fl e w =
    elim (Bool-cases (not (can_access_client f.access id r.client_name (web_of p)))) [
      | inl t ↦ rw (t, create_tunnel) (refuse-Limited 404 db p e w)
      | inr t ↦ elim (Bool-cases (over_quota f.read f.list r.client_name db)) [
        | inl u ↦ rw (t, u, create_tunnel) (refuse-Limited 409 db p e w)
        | inr u ↦
            rw (t, u, create_tunnel)
              (tunnel_created-Limited r.client_name (create_proxy f.write now (row_of r) db) db p e
                w
                (λ n h.
                  create_proxy-WithinLimit f.write now (row_of r) db
                    (sym (
                        ap (λ b. over_quota b f.list r.client_name db) fr
                        ∙ ap (λ b. over_quota false b r.client_name db) fl)
                      ∙ u)
                    w))
      ]
    ]

post_tunnel-Limited :
    (f : Faults) (now : String) (id : ApiIdentity) (body : Option ProxyRequest) (db : Store)
    (p : Panel)
    → f.read ≡ false
    → f.list ≡ false
    → p.server.store ≡ some db
    → WithinLimit db
    → Limited (post_tunnel f now id body db p)
unfolding post_tunnel
post_tunnel-Limited f now id none db p fr fl e w = refuse-Limited 400 db p e w
post_tunnel-Limited f now id (some r0) db p fr fl e w = elim (Option-cases (checked_request r0)) [
  | inr n ↦ rw (n, post_tunnel) (refuse-Limited 400 db p e w)
  | inl (r, n) ↦ rw (n, post_tunnel) (create_tunnel-Limited f now id r db p fr fl e w)
]

-- A request to create a tunnel, by any caller and with any body, leaves every client that has a
-- limit with at most so many enabled tunnels, if that was so before; the two queries that check the
-- limit must not fail.
pub v1_handle_proxies-WithinLimit :
    (f : Faults) (row_fault : Proxy → Bool) (now : String) (id : ApiIdentity) (q : Filter)
    (body : Option ProxyRequest) (db : Store) (p : Panel)
    → f.read ≡ false
    → f.list ≡ false
    → p.server.store ≡ some db
    → WithinLimit db
    → Limited (v1_handle_proxies f row_fault now id http_post q body p)
unfolding v1_handle_proxies
v1_handle_proxies-WithinLimit f row_fault now id q body db p fr fl e w =
    subst Limited (sym (with_store-some db p (λ db'. post_tunnel f now id body db' p) e))
      (post_tunnel-Limited f now id body db p fr fl e w)
