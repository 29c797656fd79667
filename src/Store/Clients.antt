-- ===== src/Store/Clients.antt =====
-- pkg/store/store.go: the operations on clients.
use nexus_link.Base.{ℕ, ◌+◌, String}
use nexus_link.Base.{
  Bool, ◌&&◌, ◌||◌, Option, none, some, List, [], ◌∷◌, ◌++◌, nat_eq, if◌then◌else◌,
}
use nexus_link.Base.{◌==◌, Eq-nat, Eq-string, Eq-bytes}
use nexus_link.Base.{keep}
use nexus_link.Base.Dict.{is_some}
use nexus_link.Base.Tables.{find, update, delete}
use nexus_link.Store.Tables.{Client, Store}

abbrev pub has_name : String → Client → Bool
has_name name c = c.name == name

abbrev pub has_token : String → Client → Bool
has_token token c = c.token == token

unfoldable pub list_clients : Bool → Store → Option (List Client)
list_clients fault s = if fault then none else some s.clients

unfoldable pub list_clients_by_owner : Bool → String → Store → Option (List Client)
list_clients_by_owner fault owner s =
    if fault then none else some (keep (λ c. c.owner == owner) s.clients)

-- a row, that there is none, or an error
unfoldable pub get_client : Bool → String → Store → Option (Option Client)
get_client fault name s = if fault then none else some (find (has_name name) s.clients)

unfoldable pub get_client_by_token : Bool → String → Store → Option (Option Client)
get_client_by_token fault token s =
    if fault then none else some (find (λ c. has_token token c && c.status == "active") s.clients)

unfoldable pub add_client_with_owner :
    Bool → String → String → String → ℕ → ℕ → String → Store → Option (Unit {0}) × Store
add_client_with_owner fault now name token max_tunnels max_traffic owner s =
    if fault
      || is_some (find (has_name name) s.clients)
      || is_some (find (has_token token) s.clients)
    then (none, s)
    else (
      some tt,
      record s {
        clients =
            s.clients
            ++ (record {
              id = s.client_seq + 1;
              name = name;
              token = token;
              max_tunnels = max_tunnels;
              max_traffic_bytes = max_traffic;
              bytes_in = 0;
              bytes_out = 0;
              status = "active";
              owner = owner;
              created_at = now;
              updated_at = now;
            }
                ∷ []);
        client_seq = s.client_seq + 1;
      },
    )

unfoldable pub add_client :
    Bool → String → String → String → ℕ → ℕ → Store → Option (Unit {0}) × Store
unfolding add_client_with_owner
add_client fault now name token max_tunnels max_traffic s =
    add_client_with_owner fault now name token max_tunnels max_traffic "" s

-- whether a row was deleted
unfoldable pub delete_client : Bool → String → Store → Option Bool × Store
delete_client fault name s = if fault then (none, s) else (
  some (is_some (find (has_name name) s.clients)),
  record s { clients = delete (has_name name) s.clients },
)

unfoldable pub update_client_quota :
    Bool → String → String → ℕ → ℕ → Store → Option (Unit {0}) × Store
update_client_quota fault now name max_tunnels max_traffic s = if fault then (none, s) else (
  some tt,
  record s {
    clients =
        update (has_name name)
          (λ c. record c {
            max_tunnels = max_tunnels;
            max_traffic_bytes = max_traffic;
            updated_at = now;
          })
          s.clients;
  },
)

unfoldable pub add_traffic : Bool → String → String → ℕ → ℕ → Store → Option (Unit {0}) × Store
add_traffic fault now name bytes_in bytes_out s =
    if nat_eq bytes_in 0 && nat_eq bytes_out 0 then (some tt, s) else if fault then (none, s) else (
      some tt,
      record s {
        clients =
            update (has_name name)
              (λ c. record c {
                bytes_in = c.bytes_in + bytes_in;
                bytes_out = c.bytes_out + bytes_out;
                updated_at = now;
              })
              s.clients;
      },
    )
