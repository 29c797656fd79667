-- ===== src/Api/Tunnel.antt =====
-- pkg/web/server.go: v1HandleProxyPath, the requests on one tunnel.
use nexus_link.Base.{ℕ, String}
use nexus_link.Base.{
  Bool, true, false, not, ◌||◌, Option, none, some, List, [], ◌∷◌, ◌++◌, ltb, nat_eq, if◌then◌else◌,
}
use nexus_link.Base.{◌==◌, Eq-nat, Eq-string, Eq-bytes, Eq-pair}
use nexus_link.Base.Dict.{get_or}
use nexus_link.Store.Tables.{Proxy, Store}
use nexus_link.Store.Tunnels.{get_proxy, delete_proxy, update_proxy, set_proxy_enabled}
use nexus_link.Web.Access.{ApiIdentity, can_access_client}
use nexus_link.Api.State.{
  with_store, Panel, web_of, put_store, Method, http_get, http_post, http_patch, http_delete,
  Payload, nothing, tunnel, Reply, success, Note, event, answer, refuse, take_down, sync, Faults,
}
use nexus_link.Api.Proxies.{known_type}

-- the fields of a change; `none` is a field that is not given
pub record ProxyPatch : Type 0 where
  pub type : Option String
  pub remote_port : Option ℕ
  pub local_addr : Option String
  pub local_port : Option ℕ
  pub enabled : Option Bool

-- an error of the query is like no tunnel
unfoldable pub found_proxy : Bool → String → Store → Option Proxy
unfolding get_proxy
found_proxy fault name db = get_or (get_proxy fault name db) none

-- whether the caller may act on the tunnel
unfoldable pub may_touch : Faults → ApiIdentity → String → Store → Panel → Bool
unfolding found_proxy
may_touch f id name db p = if id.admin then true else elim (found_proxy f.guard name db) [
  | none ↦ false
  | some x ↦ can_access_client f.access id x.client_name (web_of p)
]

-- after a change: a tunnel that is not to run is taken down, and its client is told to reconnect
unfoldable pub after_change : Bool → String → String → String → Panel → List Note × Panel
unfolding take_down
after_change down hook name client p =
    let (notes, p') : List Note × Panel = if down then (take_down name p).1 else ([], p) in
    (notes ++ (sync client p' ++ (event hook ∷ [])), p')

-- the answer after a change of the database
unfoldable pub changed : (Store → Payload) → Bool → String → String → String → Panel → Store → Reply
unfolding after_change
changed shown down hook name client p db =
    (success (shown db), after_change down hook name client (put_store db p))

-- what follows a call that reports whether a row was there
unfoldable pub if_found : Option Bool × Store → (Store → Reply) → Panel → Reply
if_found (some true, db) next p = next db
if_found (some false, db) next p = refuse 404 (put_store db p)
if_found (none, db) next p = refuse 404 p

-- what follows a call whose report is not read
unfoldable pub if_done : Option Bool × Store → (Store → Reply) → Panel → Reply
if_done (some _, db) next p = next db
if_done (none, db) next p = refuse 500 p

unfoldable pub switch_proxy : Faults → String → Bool → Store → Panel → Reply
unfolding changed if_done
switch_proxy f name enabled db p = elim (found_proxy f.read name db) [
  | none ↦ refuse 404 p
  | some x ↦
      if_done (set_proxy_enabled f.write name enabled db)
        (changed (λ _. nothing) (not enabled) "proxy_disabled" name x.client_name p) p
]

-- the fields that are given over those of the row, with the default address
unfoldable pub patched : ProxyPatch → Proxy → Proxy
patched r x =
    let addr = get_or r.local_addr x.local_addr in
    record x {
      type = get_or r.type x.type;
      remote_port = get_or r.remote_port x.remote_port;
      local_addr = if addr == "" then "127.0.0.1" else addr;
      local_port = get_or r.local_port x.local_port;
      enabled = get_or r.enabled x.enabled;
    }

unfoldable pub save_patch : Faults → Proxy → String → Store → Panel → Reply
unfolding changed found_proxy if_found
save_patch f y name db p =
    if_found (update_proxy f.write name y.type y.remote_port y.local_port y.local_addr y.enabled db)
      (changed (λ after. tunnel (found_proxy f.reread name after)) (not y.enabled) "proxy_updated"
        name y.client_name p)
      p

unfoldable pub patch_proxy : Faults → String → Option ProxyPatch → Store → Panel → Reply
unfolding patched save_patch known_type
patch_proxy f name body db p = elim (found_proxy f.read name db) [
  | none ↦ refuse 404 p
  | some x ↦ elim body [
    | none ↦ refuse 400 p
    | some r ↦
        let y = patched r x in
        if not (known_type y.type) || nat_eq y.remote_port 0 || ltb 65535 y.remote_port
        then refuse 400 p
        else save_patch f y name db p
  ]
]

unfoldable pub drop_proxy : Faults → String → Store → Panel → Reply
unfolding changed if_found
drop_proxy f name db p = elim (found_proxy f.read name db) [
  | none ↦ refuse 404 p
  | some x ↦
      if_found (delete_proxy f.write name db)
        (changed (λ _. nothing) true "proxy_deleted" name x.client_name p) p
]

-- with a part after the name
unfoldable pub act_on_proxy : Faults → Method → String → String → Store → Panel → Reply
unfolding switch_proxy
act_on_proxy f method name action db p =
    if action == "enable" || action == "disable"
    then elim method [
      | http_post ↦ switch_proxy f name (action == "enable") db p
      | _ ↦ refuse 405 p
    ]
    else refuse 400 p

unfoldable pub proxy_by_method :
    Faults → Method → String → Option ProxyPatch → Store → Panel → Reply
unfolding found_proxy patch_proxy drop_proxy
proxy_by_method f method name body db p = elim method [
  | http_get ↦ elim (found_proxy f.read name db) [
    | none ↦ refuse 404 p
    | some x ↦ answer (tunnel (some x)) p
  ]
  | http_patch ↦ patch_proxy f name body db p
  | http_delete ↦ drop_proxy f name db p
  | _ ↦ refuse 405 p
]

unfoldable pub on_proxy :
    Faults → Method → String → List String → Option ProxyPatch → Store → Panel → Reply
unfolding act_on_proxy proxy_by_method
on_proxy f method name [] body db p = proxy_by_method f method name body db p
on_proxy f method name (action ∷ more) body db p = act_on_proxy f method name action db p

unfoldable pub proxy_of_path :
    Faults → ApiIdentity → Method → List String → Option ProxyPatch → Store → Panel → Reply
unfolding may_touch on_proxy
proxy_of_path f id method [] body db p = refuse 400 p
proxy_of_path f id method (name ∷ more) body db p =
    if name == "" || name == "close"
    then refuse 400 p
    else if not (may_touch f id name db p)
    then refuse 403 p
    else on_proxy f method name more body db p

unfoldable pub v1_handle_proxy_path :
    Faults → ApiIdentity → Method → List String → Option ProxyPatch → Panel → Reply
unfolding proxy_of_path with_store
v1_handle_proxy_path f id method parts body p =
    with_store p (λ db. proxy_of_path f id method parts body db p)
