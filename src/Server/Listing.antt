-- ===== src/Server/Listing.antt =====
-- cmd/server/main.go: what the server tells of its tunnels, connections and clients, and KickClient. A
-- tunnel of the table is active. The byte counters of a tunnel and the address and time of a connection
-- are left out.
use nexus_link.Base.{ℕ, suc, String}
use nexus_link.Base.{Bool, true, false, Option, none, some, List, [], ◌∷◌, map, if◌then◌else◌}
use nexus_link.Base.{◌==◌, Eq-nat, Eq-string, Eq-bytes, Eq-pair}
use nexus_link.Base.{any}
use nexus_link.Base.Dict.{Dict, is_some, get_or, lookup, insert}
use nexus_link.Base.Tables.{find}
use nexus_link.Store.Tables.{Client}
use nexus_link.Store.Clients.{list_clients}
use nexus_link.Server.State.{ManagedClient, Proxy, Server}
use nexus_link.Server.Identity.{client_name_for}

pub record ProxyInfo : Type 0 where
  pub name : String
  pub type : String
  pub remote_port : ℕ
  pub active : Bool

pub record ClientInfo : Type 0 where
  pub id : String
  pub name : String
  pub proxy_count : ℕ

pub record ClientTrafficInfo : Type 0 where
  pub name : String
  pub bytes_in : ℕ
  pub bytes_out : ℕ
  pub connected : Bool
  pub proxy_count : ℕ
  pub max_tunnels : ℕ
  pub max_traffic_bytes : ℕ

-- GetProxies
unfoldable pub get_proxies : Server → List ProxyInfo
get_proxies s =
    map (λ e. record { name = e.0; type = e.1.type; remote_port = e.1.remote_port; active = true })
      s.proxies

-- the number of tunnels that pass a test
unfoldable pub count_proxies : (Proxy → Bool) → Dict String Proxy → ℕ
count_proxies p [] = 0
count_proxies p ((name, x) ∷ m) = let rest = count_proxies p m in if p x then suc rest else rest

-- GetClients
unfoldable pub get_clients : Server → List ClientInfo
unfolding count_proxies client_name_for
get_clients s =
    map
      (λ e. record {
        id = e.0;
        name = client_name_for e.0 s;
        proxy_count = count_proxies (λ p. p.owner == e.0) s.proxies;
      })
      s.clients

-- KickClient: the connection that is closed, or an error
unfoldable pub kick_client : String → Server → Option ℕ
kick_client id s = lookup id s.clients

-- the rows of the database, then the managed clients that it does not have
unfoldable pub stored_bases :
    List Client → Dict String ClientTrafficInfo → Dict String ClientTrafficInfo
stored_bases [] m = m
stored_bases (c ∷ cs) m = stored_bases cs (
    insert c.name
      (record {
        name = c.name;
        bytes_in = c.bytes_in;
        bytes_out = c.bytes_out;
        connected = false;
        proxy_count = 0;
        max_tunnels = c.max_tunnels;
        max_traffic_bytes = c.max_traffic_bytes;
      })
      m)

unfoldable pub indexed_bases :
    Dict String ManagedClient → Dict String ClientTrafficInfo → Dict String ClientTrafficInfo
indexed_bases [] m = m
indexed_bases ((token, mc) ∷ rest) m = indexed_bases rest (
    if is_some (lookup mc.name m)
    then m
    else insert mc.name
        (record {
          name = mc.name;
          bytes_in = 0;
          bytes_out = 0;
          connected = false;
          proxy_count = 0;
          max_tunnels = mc.max_tunnels;
          max_traffic_bytes = mc.max_traffic_bytes;
        })
        m)

-- the clients of the database, or none
unfoldable pub stored_clients : Bool → Server → List Client
unfolding list_clients
stored_clients fault s = elim s.store [ none ↦ [] | some db ↦ get_or (list_clients fault db) [] ]

-- ListClientsTraffic
unfoldable pub list_clients_traffic : Bool → Server → List ClientTrafficInfo
unfolding count_proxies stored_bases indexed_bases stored_clients
list_clients_traffic fault s =
    map
      (λ e. record e.1 {
        connected = any (λ n. n.1 == e.0) s.client_names;
        proxy_count = count_proxies (λ p. p.client_name == e.0) s.proxies;
      })
      (indexed_bases s.managed_by_token (stored_bases (stored_clients fault s) []))

-- GetClientTraffic
unfoldable pub get_client_traffic : Bool → String → Server → Option ClientTrafficInfo
unfolding list_clients_traffic
get_client_traffic fault name s = find (λ i. i.name == name) (list_clients_traffic fault s)
