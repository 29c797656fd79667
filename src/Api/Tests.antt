-- ===== src/Api/Tests.antt =====
-- A panel with two users, a client of each and a tunnel of each.
use nexus_link.Base.{ℕ, String, ◌≡◌, refl, sym, ◌≢◌, ◌⊎◌}
use nexus_link.Base.{Bool, true, false, ◌&&◌, none, some, List, [], ◌∷◌, arith, if◌then◌else◌}
use nexus_link.Base.{◌==◌, Eq-nat, Eq-string, Eq-bytes, Eq-pair}
use nexus_link.Base.{keep, any, All}
use mathlib.Core.Path.{subst}
use nexus_link.Base.Dict.{is_some, lookup}
use nexus_link.Base.Tables.{find}
use nexus_link.Store.Tables.{Client, User, Proxy, Store}
use nexus_link.Store.Tests.{empty}
use nexus_link.Store.Clients.{get_client}
use nexus_link.Store.Tunnels.{get_proxy}
use nexus_link.Store.Keys.{has_api_key}
use nexus_link.Server.Tests.{fresh}
use nexus_link.Server.Listing.{list_clients_traffic}
use nexus_link.Web.Tests.{panel}
use nexus_link.Web.Access.{ApiIdentity, administrator, api_identity, can_access_client}
use nexus_link.Api.State.{
  Panel, web_of, http_get, http_post, http_delete, tunnel_list, own_clients, no_faults, answer,
  refuse,
}
use nexus_link.Api.Clients.{v1_handle_clients}
use nexus_link.Api.Filters.{IsAsked}
use nexus_link.Api.Proxies.{Filter, ProxyRequest, v1_handle_proxies}
use nexus_link.Api.Tunnel.{v1_handle_proxy_path}
use nexus_link.Api.Users.{Fresh, v1_handle_user_path, v1_handle_login}
use nexus_link.Api.Accounts.{OnlyOwn, v1_handle_user_path-OnlyOwn}
use nexus_link.Api.Spares.{Spares}
use nexus_link.Api.Isolation.{is_hidden, v1_handle_proxy_path-hidden, v1_handle_proxy_path_foreign}
use nexus_link.Api.Listings.{IsOwn, v1_handle_proxies-IsOwn, v1_handle_clients-owned}
use nexus_link.Api.KeySpec.{KeyRequest, adds, deletes, run_keys, steps, Holds}
use nexus_link.Api.KeySet.{run_keys-steps}
use nexus_link.Api.Quota.{enabled_tunnels, WithinLimit, Limited, v1_handle_proxies-WithinLimit}
use nexus_link.Api.Login.{IsLogin, v1_handle_login-IsLogin}

abbrev user : ℕ → String → String → User
user id name token = record {
  id = id;
  username = name;
  password_hash = "saltpw";
  password_salt = "salt";
  role = "user";
  api_token = token;
  status = "active";
  created_at = "t1";
  updated_at = "t1";
}

abbrev client : ℕ → String → String → Client
client id name owner = record {
  id = id;
  name = name;
  token = name;
  max_tunnels = 2;
  max_traffic_bytes = 0;
  bytes_in = 0;
  bytes_out = 0;
  status = "active";
  owner = owner;
  created_at = "t1";
  updated_at = "t1";
}

abbrev row : ℕ → String → String → Proxy
row id name of_client = record {
  id = id;
  name = name;
  type = "tcp";
  remote_port = 8080;
  local_addr = "127.0.0.1";
  local_port = 80;
  client_name = of_client;
  enabled = true;
  created_at = "t1";
}

abbrev rows : Store
rows = record empty {
  users = user 1 "ann" "tok_a" ∷ user 2 "bob" "tok_b" ∷ [];
  clients = client 1 "home" "ann" ∷ client 2 "office" "bob" ∷ [];
  proxies = row 1 "web" "home" ∷ row 2 "db" "office" ∷ [];
}

abbrev board : Panel
board = record { server = record fresh { store = some rows }; web = panel }

abbrev ann : ApiIdentity
ann = record { admin = false; username = "ann"; role = "user" }

abbrev new : Fresh
new = record { now = "t2"; salt = "s2"; token = "tok_c" }

v1_handle_user_path-OnlyOwn_example :
    (after : Store) × ((v1_handle_user_path
        (λ t. t)
        no_faults
        new
        ann
        http_post
        ("ann" ∷ "password" ∷ [])
        (some "x")
        board).1.1.server.store
      ≡ some after)
    × OnlyOwn "ann" rows after
v1_handle_user_path-OnlyOwn_example =
    v1_handle_user_path-OnlyOwn (λ t. t) no_faults new ann http_post ("ann" ∷ "password" ∷ [])
      (some "x") rows board refl refl

-- ann deletes her tunnel
v1_handle_proxy_path-hidden_test :
    Spares
      (is_hidden ann board)
      rows
      (v1_handle_proxy_path no_faults ann http_delete ("web" ∷ []) none board)
v1_handle_proxy_path-hidden_test =
    v1_handle_proxy_path-hidden no_faults ann http_delete "web" [] none rows board refl
      (unfold can_access_client get_client web_of find in (λ h. refl, (λ h. cc, tt)))

db-foreign :
    (x : Proxy) (c : Client)
    → get_proxy false "db" rows ≡ some (some x)
    → get_client false x.client_name rows ≡ some (some c)
    → (c.owner == "ann") ≡ false
unfolding get_proxy get_client find
db-foreign x c g h =
    let e : row 2 "db" "office" ≡ x = ground (arith, g) in
    let k : some (some (client 2 "office" "bob")) ≡ some (some c) =
      subst (λ y. get_client false y.client_name rows ≡ some (some c)) (sym e) h in
    let same : client 2 "office" "bob" ≡ c = ground (arith, k) in
    subst (λ d. (d.owner == "ann") ≡ false) same refl

-- the tunnel of bob
v1_handle_proxy_path_foreign_example :
    v1_handle_proxy_path no_faults ann http_delete ("db" ∷ []) none board ≡ refuse 403 board
v1_handle_proxy_path_foreign_example =
    v1_handle_proxy_path_foreign no_faults ann http_delete "db" [] none rows board refl refl refl
      db-foreign

abbrev everything : Filter
everything = record { client_name = ""; type = ""; enabled = ""; active = ""; search = "" }

v1_handle_proxies-IsOwn_example :
    let r = v1_handle_proxies no_faults (λ x. false) "t2" ann http_get everything none board in
    (r ≡ refuse 500 board)
    ⊎ ((shown : List (Proxy × Bool)) × (r ≡ answer (tunnel_list shown) board)
        × All
            (λ x.
              IsOwn "ann" rows x.0
              × IsAsked everything x.0 x.1
              × (x.1 ≡ is_some (lookup x.0.name board.server.proxies)))
            shown)
v1_handle_proxies-IsOwn_example =
    v1_handle_proxies-IsOwn no_faults (λ x. false) "t2" ann everything none rows board refl refl

v1_handle_clients-owned_example :
    v1_handle_clients no_faults "t2" ann http_get none board
    ≡ answer
        (own_clients (
          keep
            (λ i. any (λ c. c.owner == "ann" && c.name == i.name) rows.clients)
            (list_clients_traffic false board.server)))
        board
v1_handle_clients-owned_example =
    v1_handle_clients-owned no_faults "t2" ann none rows board refl refl refl

-- a key is added, added again, and deleted
abbrev requests : List KeyRequest
requests = adds no_faults "t2" "k1" "" ∷ adds no_faults "t3" "k1" "" ∷ deletes no_faults "k1" ∷ []

board-Holds : Holds rows.users board (λ k. false)
board-Holds = record {
  db = rows;
  stored = refl;
  users_same = refl;
  kept = λ k. unfold find in refl;
  indexed = λ k. unfold lookup in refl;
}

run_keys-steps_example :
    ((run_keys requests board).0 ≡ (steps requests (λ k. false)).0)
    × ((k : String)
        → (k == "") ≡ false
        → find (λ u. u.api_token == k && u.status == "active") rows.users ≡ none
        → api_identity false false k (web_of (run_keys requests board).1)
          ≡ (if (steps requests (λ k. false)).1 k then some administrator else none))
run_keys-steps_example = run_keys-steps requests rows.users board (λ k. false) board-Holds

abbrev wanted : ProxyRequest
wanted = record {
  name = "ssh";
  type = "tcp";
  remote_port = 2222;
  local_addr = "";
  local_port = 22;
  client_name = "home";
}

rows-WithinLimit : WithinLimit rows
unfolding enabled_tunnels get_client find
rows-WithinLimit name c g b = ground (arith, g, b)

v1_handle_proxies-WithinLimit_example :
    Limited
      (v1_handle_proxies no_faults (λ x. false) "t2" ann http_post everything (some wanted) board)
v1_handle_proxies-WithinLimit_example =
    v1_handle_proxies-WithinLimit no_faults (λ x. false) "t2" ann everything (some wanted) rows
      board refl refl refl rows-WithinLimit

tokens_apart : ◌≢◌ {A = String} "tok_a" "tok_b"
tokens_apart h =
    let e : false ≡ true = (Eq-string.same_iff "tok_a" "tok_b").1 h in absurd (ground (arith, e))

v1_handle_login-IsLogin_example :
    let r = v1_handle_login (λ t. t) false (some ("ann", "pw")) board in
    (r ≡ refuse 400 board) ⊎ ((r ≡ refuse 401 board) ⊎ IsLogin (λ t. t) "ann" "pw" rows board r)
v1_handle_login-IsLogin_example =
    v1_handle_login-IsLogin (λ t. t) "ann" "pw" rows board refl ((tokens_apart, tt), (tt, tt))
      (unfold has_api_key find in ((refl, refl), ((refl, refl), tt)))
