-- ===== src/Server/SessionTests.antt =====
-- A connection that logs in and asks for a tunnel, and a server that is started twice.
use nexus_link.Base.{String, ◌≡◌, refl}
use nexus_link.Base.{Bool, true, false, Option, some, [], ◌∷◌, if◌then◌else◌}
use nexus_link.Base.{◌==◌, Eq-nat, Eq-string, Eq-bytes, Eq-pair}
use nexus_link.Base.Dict.{lookup, insert}
use nexus_link.Base.Tables.{find}
use nexus_link.Guard.State.{
  Addr, tcp, get_ip, at, new_conn_guard, is_whitelisted, check, on_list, check_banned, check_rate,
  check_count, is_loopback,
}
use nexus_link.Store.Clients.{get_client_by_token}
use nexus_link.Store.Tests.{empty}
use nexus_link.Server.State.{Proxy, ManagedClient}
use nexus_link.Server.Identity.{
  identify, indexed_name, fallback_name, stored_name, auth_for_client, client_name_for, register,
}
use nexus_link.Server.Tunnels.{
  open_main, open_second, install, new_proxy, proxy_allowed, handle_new_proxy,
}
use nexus_link.Server.Session.{
  Live, World, login, asks, open_conn, on_first, after_login, conclude, control, opens, speaks,
  controls, Reach, starts, further,
}
use nexus_link.Server.Occupancy.{number, Reach-IsCounted}
use nexus_link.Guard.State.{clear_misbehavior}
use nexus_link.Base.{◌≤◌}
use nexus_link.Server.Capacity.{Reach-number}
use nexus_link.Server.Tenure.{is_online, Reach-IsOwned}
use nexus_link.Server.Startup.{Driver, seed}
use nexus_link.Server.Restart.{works}
use nexus_link.Server.Reseed.{seed-seed}
use nexus_link.Server.Tests.{fresh, any_name, web, os}

abbrev parse : String → Option String
parse s = some s

abbrev inside : String → String → Bool
inside net ip = net == ip

abbrev quiet : World String
quiet = record { guard = new_conn_guard; server = fresh; live = [] }

abbrev guest : Addr
guest = tcp "10.0.0.7"

abbrev let_in : World String
let_in = open_conn parse inside any_name 5 guest quiet

abbrev unnamed : Live
unnamed = record { id = ""; addr = guest; logged_in = false }

abbrev named : Live
named = record { id = "c1"; addr = guest; logged_in = true }

abbrev spoken : World String
spoken =
    conclude parse inside any_name [] unnamed [] "c1" 9
      (on_first parse inside any_name 6 false (some "10.0.0.7") guest (login "main") let_in)

abbrev serving : World String
serving = record spoken { server = control parse inside any_name (asks os web) "c1" spoken.server }

let_in-live : let_in.live ≡ unnamed ∷ []
unfolding open_conn check is_whitelisted on_list check_banned check_rate check_count new_conn_guard
    is_loopback get_ip lookup
let_in-live = refl

spoken-live : spoken.live ≡ named ∷ []
unfolding conclude on_first after_login identify indexed_name fallback_name stored_name
    get_client_by_token lookup open_conn find
spoken-live = refl

serving-Reach : Reach parse inside any_name serving
serving-Reach =
    further
      (further
        (further (starts quiet refl (unfold new_conn_guard in refl) refl) (opens quiet 5 guest))
        (speaks let_in [] unnamed [] 6 false (some "10.0.0.7") (login "main") "c1" 9 let_in-live
          refl))
      (controls spoken [] named [] (asks os web) spoken-live refl)

not_listed : is_whitelisted parse inside serving.guard "10.0.0.7" ≡ false
unfolding on_first after_login conclude open_conn identify indexed_name fallback_name stored_name
    get_client_by_token lookup find check new_conn_guard is_whitelisted on_list clear_misbehavior
    is_loopback get_ip
not_listed = refl

Reach-IsCounted_example : at serving.guard.conn_count "10.0.0.7" ≡ (
    if is_whitelisted parse inside serving.guard "10.0.0.7"
    then 0
    else number "10.0.0.7" serving.live)
Reach-IsCounted_example = Reach-IsCounted parse inside any_name serving-Reach "10.0.0.7"

Reach-number_example : number "10.0.0.7" serving.live ≤ serving.guard.max_conn
Reach-number_example =
    Reach-number parse inside any_name serving-Reach "10.0.0.7" not_listed
      (unfold is_loopback in refl)

abbrev served : Proxy
served = new_proxy "c1" web spoken.server 3 4 40_000

serves : lookup "web" serving.server.proxies ≡ some served
unfolding control handle_new_proxy open_main open_second install proxy_allowed lookup insert
    conclude on_first after_login identify indexed_name fallback_name stored_name
    get_client_by_token register open_conn find client_name_for auth_for_client
serves = refl

Reach-IsOwned_example : is_online served.owner serving.live ≡ true
Reach-IsOwned_example = Reach-IsOwned parse inside any_name serving-Reach "web" served serves

abbrev edge : ManagedClient
edge = record { name = "edge"; token = "secret"; max_tunnels = 5; max_traffic_bytes = 100 }

-- every query on the client fails at the second start
abbrev failing : Driver
failing name = (true, true)

seed-seed_example :
    seed "t2" failing (edge ∷ []) ("key" ∷ []) (seed "t1" works (edge ∷ []) ("key" ∷ []) empty)
    ≡ seed "t1" works (edge ∷ []) ("key" ∷ []) empty
seed-seed_example = seed-seed "t1" "t2" failing (edge ∷ []) ("key" ∷ []) empty
