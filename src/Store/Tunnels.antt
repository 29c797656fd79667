-- ===== src/Store/Tunnels.antt =====
-- pkg/store/store.go: the operations on tunnels, the table `proxies`.
use nexus_link.Base.{ℕ, ◌+◌, String}
use nexus_link.Base.{Bool, ◌&&◌, ◌||◌, Option, none, some, List, [], ◌∷◌, ◌++◌, if◌then◌else◌}
use nexus_link.Base.{◌==◌, Eq-nat, Eq-string, Eq-bytes}
use nexus_link.Base.{keep}
use nexus_link.Base.Dict.{is_some}
use nexus_link.Base.Tables.{find, update, delete}
use nexus_link.Store.Tables.{Proxy, Store}

abbrev pub is_named : String → Proxy → Bool
is_named name p = p.name == name

abbrev pub is_tunnel_of : String → String → Proxy → Bool
is_tunnel_of client name p = p.client_name == client && p.name == name

-- UNIQUE(client_name, name); the id of the argument and its time are not used
unfoldable pub create_proxy : Bool → String → Proxy → Store → Option ℕ × Store
create_proxy fault now p s =
    if fault || is_some (find (is_tunnel_of p.client_name p.name) s.proxies) then (none, s) else (
      some (s.proxy_seq + 1),
      record s {
        proxies = s.proxies ++ (record p { id = s.proxy_seq + 1; created_at = now } ∷ []);
        proxy_seq = s.proxy_seq + 1;
      },
    )

-- ListProxiesByClient
unfoldable pub list_proxies_by_client : Bool → String → Store → Option (List Proxy)
list_proxies_by_client fault client s =
    if fault then none else some (keep (λ p. p.client_name == client && p.enabled) s.proxies)

unfoldable pub get_proxy : Bool → String → Store → Option (Option Proxy)
get_proxy fault name s = if fault then none else some (find (is_named name) s.proxies)

unfoldable pub delete_proxy : Bool → String → Store → Option Bool × Store
delete_proxy fault name s = if fault then (none, s) else (
  some (is_some (find (is_named name) s.proxies)),
  record s { proxies = delete (is_named name) s.proxies },
)

unfoldable pub update_proxy :
    Bool → String → String → ℕ → ℕ → String → Bool → Store → Option Bool × Store
update_proxy fault name type remote_port local_port local_addr enabled s =
    if fault then (none, s) else (
      some (is_some (find (is_named name) s.proxies)),
      record s {
        proxies =
            update (is_named name)
              (λ p. record p {
                type = type;
                remote_port = remote_port;
                local_addr = local_addr;
                local_port = local_port;
                enabled = enabled;
              })
              s.proxies;
      },
    )

unfoldable pub set_proxy_enabled : Bool → String → Bool → Store → Option Bool × Store
set_proxy_enabled fault name enabled s = if fault then (none, s) else (
  some (is_some (find (is_named name) s.proxies)),
  record s { proxies = update (is_named name) (λ p. record p { enabled = enabled }) s.proxies },
)
