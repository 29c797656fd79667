-- ===== src/Api/Proxies.antt =====
-- pkg/web/server.go: v1HandleProxies, the list of tunnels and the creation of one.
use nexus_link.Base.{ℕ, String}
use nexus_link.Base.{
  Bool, true, false, not, ◌&&◌, ◌||◌, Option, none, some, List, [], ◌∷◌, ◌++◌, ltb, leb, nat_eq,
  if◌then◌else◌,
}
use nexus_link.Base.{◌==◌, Eq-nat, Eq-string, Eq-bytes, Eq-pair}
use nexus_link.Base.{length}
use nexus_link.Base.Dict.{is_some, get_or, lookup}
use nexus_link.Base.Text.{contains}
use nexus_link.Store.Tables.{Proxy, Store}
use nexus_link.Store.Clients.{get_client}
use nexus_link.Store.Tunnels.{create_proxy, list_proxies_by_client}
use nexus_link.Store.Listing.{list_proxies}
use nexus_link.Web.Access.{ApiIdentity, can_access_client}
use nexus_link.Api.State.{
  with_store, Panel, web_of, put_store, Method, http_get, http_post, nothing, tunnel_list, Reply,
  success, event, answer, refuse, sync, Faults,
}

-- the query parameters; "" is one that is not given
pub record Filter : Type 0 where
  pub client_name : String
  pub type : String
  pub enabled : String
  pub active : String
  pub search : String

abbrev same_bool : Bool → Bool → Bool
same_bool a b = if a then b else not b

-- a filter on a flag
unfoldable pub flag_allows : String → Bool → Bool
flag_allows query flag = query == "" || same_bool (query == "1" || query == "true") flag

unfoldable pub allows : Filter → Proxy → Bool → Bool
unfolding flag_allows contains
allows q x active =
    (q.client_name == "" || x.client_name == q.client_name)
    && (q.type == "" || x.type == q.type)
    && flag_allows q.enabled x.enabled
    && flag_allows q.active active
    && (q.search == "" || contains x.name q.search)

-- a tunnel runs when the server has one of its name
abbrev pub is_active : Panel → Proxy → Bool
is_active p x = is_some (lookup x.name p.server.proxies)

-- the rows that the caller may see and asks for; each row is a query of its own
unfoldable pub visible_rows :
    (Proxy → Bool) → ApiIdentity → Filter → Panel → List Proxy → List (Proxy × Bool)
unfolding allows
visible_rows row_fault id q p [] = []
visible_rows row_fault id q p (x ∷ xs) =
    let rest = visible_rows row_fault id q p xs in
    if can_access_client (row_fault x) id x.client_name (web_of p) && allows q x (is_active p x)
    then (x, is_active p x) ∷ rest
    else rest

pub record ProxyRequest : Type 0 where
  pub name : String
  pub type : String
  pub remote_port : ℕ
  pub local_addr : String
  pub local_port : ℕ
  pub client_name : String

unfoldable pub known_type : String → Bool
known_type type = type == "tcp" || type == "udp"

-- the checks of a body, with the defaults filled in
unfoldable pub checked_request : ProxyRequest → Option ProxyRequest
unfolding known_type
checked_request r =
    let type = if r.type == "" then "tcp" else r.type in
    if r.name == "" || r.client_name == "" || nat_eq r.remote_port 0 || ltb 65535 r.remote_port
    then none
    else if not (known_type type)
    then none
    else some (record r {
      type = type;
      local_addr = if r.local_addr == "" then "127.0.0.1" else r.local_addr;
    })

-- the limit of the client is used up; 0 is no limit
unfoldable pub over_quota : Bool → Bool → String → Store → Bool
over_quota read_fault list_fault client db = elim (get_or (get_client read_fault client db) none) [
  | none ↦ false
  | some c ↦
      ltb 0 c.max_tunnels
      && leb c.max_tunnels (length (get_or (list_proxies_by_client list_fault client db) []))
]

abbrev pub row_of : ProxyRequest → Proxy
row_of r = record {
  id = 0;
  name = r.name;
  type = r.type;
  remote_port = r.remote_port;
  local_addr = r.local_addr;
  local_port = r.local_port;
  client_name = r.client_name;
  enabled = true;
  created_at = "";
}

unfoldable pub tunnel_created : String → Option ℕ × Store → Panel → Reply
tunnel_created client (none, db) p = refuse 409 p
tunnel_created client (some _, db) p =
    let p' = put_store db p in
    (success nothing, (sync client p' ++ (event "proxy_created" ∷ []), p'))

unfoldable pub create_tunnel : Faults → String → ApiIdentity → ProxyRequest → Store → Panel → Reply
unfolding over_quota tunnel_created
create_tunnel f now id r db p =
    if not (can_access_client f.access id r.client_name (web_of p))
    then refuse 404 p
    else if over_quota f.read f.list r.client_name db
    then refuse 409 p
    else tunnel_created r.client_name (create_proxy f.write now (row_of r) db) p

unfoldable pub list_tunnels :
    (Proxy → Bool) → ApiIdentity → Filter → Option (List Proxy) → Panel → Reply
unfolding visible_rows
list_tunnels row_fault id q none p = refuse 500 p
list_tunnels row_fault id q (some xs) p = answer (tunnel_list (visible_rows row_fault id q p xs)) p

unfoldable pub post_tunnel :
    Faults → String → ApiIdentity → Option ProxyRequest → Store → Panel → Reply
unfolding checked_request create_tunnel
post_tunnel f now id none db p = refuse 400 p
post_tunnel f now id (some r0) db p = elim (checked_request r0) [
  | none ↦ refuse 400 p
  | some r ↦ create_tunnel f now id r db p
]

unfoldable pub v1_handle_proxies :
    Faults
    → (Proxy → Bool)
    → String
    → ApiIdentity
    → Method
    → Filter
    → Option ProxyRequest
    → Panel
    → Reply
unfolding list_tunnels post_tunnel with_store
v1_handle_proxies f row_fault now id method q body p = with_store p (λ db. elim method [
  | http_get ↦ list_tunnels row_fault id q (list_proxies f.list db) p
  | http_post ↦ post_tunnel f now id body db p
  | _ ↦ refuse 405 p
])
