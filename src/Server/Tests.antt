-- ===== src/Server/Tests.antt =====
-- A server with one managed client and its tunnels.
use nexus_link.Server.Traffic.{
  client_max_traffic, client_total_traffic, counted, add_client_traffic,
}
use nexus_link.Server.Departure.{lookup-disconnect}
use nexus_link.Store.Tables.{Client, Store}
use nexus_link.Server.State.{ManagedClient}
use nexus_link.Server.Removal.{remove_managed_client, identify-remove_managed_client}
use nexus_link.Base.{ℕ, ◌≤◌, String, ◌≡◌, refl, ◌↔◌}
use nexus_link.Base.{Bool, true, false, none, some, List, [], ◌∷◌, if◌then◌else◌}
use nexus_link.Base.{◌==◌, Eq-nat, Eq-string, Eq-bytes, Eq-pair}
use nexus_link.Base.Dict.{get_or, lookup, insert}
use nexus_link.Store.Clients.{get_client_by_token}
use nexus_link.Store.Tests.{empty}
use nexus_link.Server.State.{Proxy, Server}
use nexus_link.Server.Identity.{
  identify, stored_name, auth_for_client, register, add_managed_client,
}
use nexus_link.Server.Tunnels.{Request, Os, handle_new_proxy, close_proxy, disconnect}
use nexus_link.Server.Traffic.{client_total_traffic, client_max_traffic, add_client_traffic}
use nexus_link.Server.Admission.{identify-add_managed_client, identify_unmanaged}
use nexus_link.Server.Acceptance.{IsOpened, handle_new_proxy_created}
use nexus_link.Server.Permission.{IsPermitted}
use nexus_link.Server.Keys.{IsNamed, IsKey}
use nexus_link.Server.Ownership.{is_created, handle_new_proxy_refused, close_proxy-handle_new_proxy}
use nexus_link.Server.Alerts.{
  run_traffic, alerts_of, alerts_of-run_traffic, run_traffic-add_client_traffic,
}

abbrev pub fresh : Server
fresh = record {
  token = "main";
  acl = record { allow_names = []; allow_ports = [] };
  proxies = [];
  clients = [];
  managed_by_token = [];
  client_names = [];
  client_traffic = [];
  store = some empty;
  notified_limit = [];
  sockets = [];
}

-- the database refuses the write
abbrev with_edge : Server
with_edge = (add_managed_client false true "t" "edge" "secret" 5 100 "" fresh).1

identify-add_managed_client_example :
    (identify false "secret" with_edge ≡ (some "edge", with_edge))
    × (auth_for_client "edge" with_edge ≡ "secret")
identify-add_managed_client_example =
    identify-add_managed_client false true false "t" "edge" "secret" 5 100 "" fresh refl refl refl

identify_unmanaged_test :
    identify true "guess" with_edge
    ≡ (if "guess" == with_edge.token then some "default" else none, with_edge)
unfolding insert get_client_by_token
identify_unmanaged_test =
    identify_unmanaged true "guess" with_edge (unfold add_managed_client lookup in refl)
      (unfold stored_name add_managed_client in refl)

abbrev joined : Server
joined = register "c1" 9 "edge" with_edge

abbrev pub any_name : String → String → Bool
any_name pattern name = true

abbrev pub web : Request
web = record { name = "web"; type = "tcp"; remote_port = 8080 }

abbrev pub os : Os
os = record { resolved = true; main = some 3; data_resolved = true; second = some (4, 40_000) }

abbrev full_os : Os
full_os = record os { second = none }

refused : is_created (handle_new_proxy any_name full_os "c1" web fresh).0 ≡ false
unfolding handle_new_proxy lookup
refused = refl

handle_new_proxy_refused_example : (handle_new_proxy any_name full_os "c1" web fresh).1 ≡ fresh
handle_new_proxy_refused_example = handle_new_proxy_refused any_name full_os "c1" web fresh refused

accepted : is_created (handle_new_proxy any_name os "c1" web fresh).0 ≡ true
unfolding handle_new_proxy lookup
accepted = refl

handle_new_proxy_created_example :
    (is_created (handle_new_proxy any_name os "c1" web joined).0 ≡ true) ↔ (
      IsPermitted any_name joined.acl "web" 8080
      × (lookup "web" joined.proxies ≡ none)
      × ((main : ℕ) × (second : ℕ × ℕ) × IsOpened os web main second
          × ((p : Proxy) × (lookup "web" (handle_new_proxy any_name os "c1" web joined).1.proxies
                ≡ some p)
              × (p.owner ≡ "c1")
              × (p.listener ≡ main)
              × (p.data_listener ≡ second.0)
              × IsNamed "c1" joined p.client_name
              × IsKey p.client_name joined p.secret)))
handle_new_proxy_created_example = handle_new_proxy_created any_name os "c1" web joined

close_proxy-handle_new_proxy_example :
    close_proxy "web" (handle_new_proxy any_name os "c1" web fresh).1 ≡ (true, fresh)
close_proxy-handle_new_proxy_example =
    close_proxy-handle_new_proxy any_name os "c1" web fresh accepted

abbrev with_web : Server
with_web = (handle_new_proxy any_name os "c1" web fresh).1

abbrev the_web : Proxy
the_web = record {
  name = "web";
  type = "tcp";
  remote_port = 8080;
  owner = "c1";
  client_name = "default";
  secret = "main";
  listener = 3;
  data_listener = 4;
  data_port = 40_000;
}

lookup-disconnect_example :
    (lookup "web" (disconnect "c2" with_web).proxies ≡ some the_web)
    ↔ ((lookup "web" with_web.proxies ≡ some the_web) × ((the_web.owner == "c2") ≡ false))
lookup-disconnect_example = lookup-disconnect "c2" with_web "web" the_web

abbrev bursts : List (Bool × (String × (ℕ × ℕ)))
bursts = (false, ("edge", (60, 50))) ∷ (true, ("edge", (1, 0))) ∷ []

alerts_of-run_traffic_test :
    alerts_of "edge" (run_traffic bursts with_edge).1
    ≤ (if get_or (lookup "edge" with_edge.notified_limit) false then 0 else 1)
alerts_of-run_traffic_test = alerts_of-run_traffic bursts "edge" with_edge

run_traffic-add_client_traffic_test :
    let (s', out) = add_client_traffic true "edge" 60 50 with_edge in
    (out
      ≡ (
        "edge",
        (
          client_total_traffic "edge" (counted "edge" 60 50 with_edge),
          client_max_traffic true "edge" with_edge,
        ),
      )
        ∷ [])
    × (alerts_of "edge" (run_traffic bursts s').1 ≡ 0)
run_traffic-add_client_traffic_test =
    run_traffic-add_client_traffic true "edge" 60 50 with_edge bursts refl refl
      (unfold client_max_traffic add_managed_client insert in refl)
      (unfold client_max_traffic client_total_traffic add_managed_client insert lookup in refl)
      (unfold add_managed_client lookup in refl)

-- the index and the database have the client, which is removed from both
abbrev edge_client : Client
edge_client = record {
  id = 1;
  name = "edge";
  token = "secret";
  max_tunnels = 5;
  max_traffic_bytes = 100;
  bytes_in = 0;
  bytes_out = 0;
  status = "active";
  owner = "";
  created_at = "t1";
  updated_at = "t1";
}

abbrev edge_managed : ManagedClient
edge_managed = record { name = "edge"; token = "secret"; max_tunnels = 5; max_traffic_bytes = 100 }

abbrev edge_db : Store
edge_db = record empty { clients = edge_client ∷ [] }

abbrev settled : Server
settled = record fresh { managed_by_token = ("secret", edge_managed) ∷ []; store = some edge_db }

identify-remove_managed_client_example :
    identify false "secret" (remove_managed_client false "edge" settled).1 ≡ (
      if "secret" == settled.token then some "default" else none,
      (remove_managed_client false "edge" settled).1,
    )
identify-remove_managed_client_example =
    identify-remove_managed_client false "edge" "secret" edge_managed edge_db settled refl refl
      (λ h. refl, tt)
