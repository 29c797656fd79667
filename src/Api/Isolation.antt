-- ===== src/Api/Isolation.antt =====
-- Requests on one tunnel: whose tunnels they can change.
use nexus_link.Base.{String, ◌≡◌, refl, sym, ap, ◌∙◌, inl, inr}
use nexus_link.Base.{Bool, false, not, ◌||◌, Option, some, List, ◌∷◌}
use nexus_link.Base.{Bool-cases, Option-cases, ◌==◌, Eq-nat, Eq-string, Eq-bytes, Eq-pair}
use mathlib.Core.Path.{subst}
use nexus_link.Base.Tables.{find}
use nexus_link.Store.Tables.{Client, Proxy, Store}
use nexus_link.Store.Clients.{get_client}
use nexus_link.Store.Tunnels.{is_named, get_proxy}
use nexus_link.Web.Access.{ApiIdentity, can_access_client}
use nexus_link.Web.Tenancy.{can_access_client_foreign}
use nexus_link.Api.State.{with_store-some, Panel, web_of, Method, Faults, refuse}
use nexus_link.Api.Spares.{Spares, Apart, proxy_of_path-Spares}
use nexus_link.Api.Tunnel.{ProxyPatch, found_proxy, may_touch, proxy_of_path, v1_handle_proxy_path}

-- a tunnel of a client that the caller may not see
abbrev pub is_hidden : ApiIdentity → Panel → Proxy → Bool
is_hidden id p x = not (can_access_client false id x.client_name (web_of p))

-- the handler, when there is a database
path_with_store :
    (f : Faults) (id : ApiIdentity) (method : Method) (parts : List String)
    (body : Option ProxyPatch) (db : Store) (p : Panel)
    → p.server.store ≡ some db
    → v1_handle_proxy_path f id method parts body p ≡ proxy_of_path f id method parts body db p
unfolding v1_handle_proxy_path
path_with_store f id method parts body db p e =
    with_store-some db p (λ db'. proxy_of_path f id method parts body db' p) e

-- A request to the path of a tunnel, of any kind and with any calls of the database failing, leaves the
-- tunnels of the clients that the caller may not see as they were, provided that none of these has the
-- name of the path.
pub v1_handle_proxy_path-hidden :
    (f : Faults) (id : ApiIdentity) (method : Method) (name : String) (more : List String)
    (body : Option ProxyPatch) (db : Store) (p : Panel)
    → p.server.store ≡ some db
    → Apart (is_hidden id p) name db
    → Spares (is_hidden id p) db (v1_handle_proxy_path f id method (name ∷ more) body p)
v1_handle_proxy_path-hidden f id method name more body db p e h =
    subst (λ r. Spares (is_hidden id p) db r)
      (sym (path_with_store f id method (name ∷ more) body db p e))
      (proxy_of_path-Spares (is_hidden id p)
        (λ x y c. ap (λ client. not (can_access_client false id client (web_of p))) c) f id method
        name more body db p e h)

may_touch_foreign :
    (f : Faults) (id : ApiIdentity) (name : String) (db : Store) (p : Panel)
    → p.server.store ≡ some db
    → id.admin ≡ false
    → ((x : Proxy) (c : Client)
        → get_proxy false name db ≡ some (some x)
        → get_client false x.client_name db ≡ some (some c)
        → (c.owner == id.username) ≡ false)
    → may_touch f id name db p ≡ false
unfolding may_touch found_proxy get_proxy web_of
may_touch_foreign f id name db p e a foreign = elim (Bool-cases f.guard) [
  | inl g ↦ rw (a, g, may_touch) refl
  | inr g ↦ elim (Option-cases (find (is_named name) db.proxies)) [
    | inr h ↦ rw (a, g, h, may_touch) refl
    | inl (x, h) ↦
        rw (a, g, h, may_touch)
          (can_access_client_foreign f.access id x.client_name db (web_of p) e a
            (λ c k. foreign x c (ap some h) k))
  ]
]

-- A request of a user to the path of a tunnel is refused with status 403 and changes nothing,
-- unless the first tunnel of that name is of a client that the user owns; whichever calls of the
-- database fail. The name is not empty and not "close".
pub v1_handle_proxy_path_foreign :
    (f : Faults) (id : ApiIdentity) (method : Method) (name : String) (more : List String)
    (body : Option ProxyPatch) (db : Store) (p : Panel)
    → p.server.store ≡ some db
    → id.admin ≡ false
    → (name == "" || name == "close") ≡ false
    → ((x : Proxy) (c : Client)
        → get_proxy false name db ≡ some (some x)
        → get_client false x.client_name db ≡ some (some c)
        → (c.owner == id.username) ≡ false)
    → v1_handle_proxy_path f id method (name ∷ more) body p ≡ refuse 403 p
unfolding proxy_of_path
v1_handle_proxy_path_foreign f id method name more body db p e a n foreign =
    path_with_store f id method (name ∷ more) body db p e
    ∙ rw (n, may_touch_foreign f id name db p e a foreign, proxy_of_path) refl
