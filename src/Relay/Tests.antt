-- ===== src/Relay/Tests.antt =====
-- One datagram to a backend that is dialled for it, and its answer.
use nexus_link.Base.{ℕ, ◌≡◌, refl}
use nexus_link.Base.{false, some, List, [], ◌∷◌, arith}
use nexus_link.Base.{Eq-nat, Eq-string, Eq-bytes, Eq-pair}
use nexus_link.Base.Dict.{lookup}
use nexus_link.Auth.Tests.{checksum, key}
use nexus_link.Udp.Channel.{to_user, get_or_create_session, handle_user_packet, handle_data_packet}
use nexus_link.Udp.Tests.{served, served-IsPaired}
use nexus_link.Client.Backends.{UdpSide, to_backend, to_server, get_or_create_backend, read_backend}
use nexus_link.Relay.Outbound.{deliver_all}
use nexus_link.Relay.Delivery.{relay}
use nexus_link.Base.{true, none}
use nexus_link.Wire.Stream.{eof}
use nexus_link.Tunnel.Forward.{Read, Pumped, pump_signed, pump_verified}
use nexus_link.Client.Forward.{idle_side, pump_up, pump_down}
use nexus_link.Relay.Stream.{stream}
use nexus_link.Base.{String, Bool, false, any, map, ◌&&◌, ◌==◌, Eq-string}
use nexus_link.Store.Tables.{Store, Proxy as Row}
use nexus_link.Server.State.{Server}
use nexus_link.Server.Identity.{client_name_for}
use nexus_link.Server.Session.{handle_sync_proxies}
use nexus_link.Server.Tests.{fresh}
use nexus_link.Store.Tests.{empty}
use nexus_link.Client.Registration.{RegisterAnswer, rejected, Start, started, sync_and_register}
use nexus_link.Relay.Sync.{item_of, sync_and_register-handle_sync_proxies}

abbrev idle : UdpSide
idle = record { sessions = []; sockets = []; stopped = false }

relay_example :
    let sid = (get_or_create_session 5 "203.0.113.1:5" served).0.0 in
    let (c1, outs) = handle_user_packet checksum key 1000 5 "203.0.113.1:5" (1 ∷ 2 ∷ []) served in
    ((deliver_all checksum key 1010 0 (some 4) outs idle).1 ≡ to_backend 4 (1 ∷ 2 ∷ []) ∷ [])
    × ((d : List ℕ) × (read_backend checksum key 1010 sid (9 ∷ []) ≡ to_server d ∷ [])
        × ((handle_data_packet checksum key 1001 6 "198.51.100.2:9" d c1).1
            ≡ to_user (9 ∷ []) "203.0.113.1:5" ∷ []))
relay_example =
    relay checksum key 1000 1010 1010 1001 5 6 0 "203.0.113.1:5" "198.51.100.2:9" "198.51.100.2:9"
      (1 ∷ 2 ∷ []) (9 ∷ []) (some 4) 4 served idle served-IsPaired (omega arith) refl
      (omega arith, omega arith) (omega arith, omega arith) (omega arith, omega arith)
      (omega arith, omega arith) (unfold get_or_create_backend lookup in refl)

abbrev read : List ℕ → ℕ → Read
read bs t = record { chunk = bs; failed = none; now = t; writable = true }

abbrev asked : List Read
asked = read (1 ∷ 2 ∷ []) 1000 ∷ read (3 ∷ []) 1001 ∷ []

abbrev answer : List Read
answer = read (7 ∷ 8 ∷ 9 ∷ []) 1002 ∷ []

abbrev none_yet : Pumped
none_yet = record { written = []; counter = 0; traffic = []; stopped = none }

stream_example :
    let sent = pump_signed checksum key asked none_yet in
    let (local_end, left) =
      pump_down checksum key
        ((1000, true) ∷ (1200, true) ∷ [])
        (record { bytes = sent.written; closing = eof })
        idle_side in
    let answered = pump_up checksum key answer idle_side in
    let (user_end, left') =
      pump_verified checksum key
        ((1005, true) ∷ [])
        (record { bytes = answered.written; closing = eof })
        none_yet in
    (local_end.written ≡ 1 ∷ 2 ∷ 3 ∷ [])
    × (user_end.written ≡ 7 ∷ 8 ∷ 9 ∷ [])
    × ((left.bytes ≡ []) × (left'.bytes ≡ []))
    × ((sent.stopped ≡ none)
        × (local_end.stopped ≡ none)
        × (answered.stopped ≡ none)
        × (user_end.stopped ≡ none))
    × ((sent.counter ≡ local_end.counter) × (answered.counter ≡ user_end.counter))
stream_example =
    stream checksum key asked answer ((1000, true) ∷ (1200, true) ∷ []) ((1005, true) ∷ []) eof eof
      ((omega arith, omega arith, refl, refl), ((omega arith, omega arith, refl, refl), tt))
      ((omega arith, omega arith, refl), ((omega arith, omega arith, refl), tt))
      ((omega arith, omega arith, refl, refl), tt) ((omega arith, omega arith, refl), tt)

abbrev row : String → String → Bool → Row
row name client on = record {
  id = 1;
  name = name;
  type = "tcp";
  remote_port = 8080;
  local_addr = "127.0.0.1";
  local_port = 80;
  client_name = client;
  enabled = on;
  created_at = "t1";
}

abbrev stored : Store
stored = record empty {
  proxies = row "web" "default" true ∷ row "old" "default" false ∷ row "web2" "edge" true ∷ [];
}

abbrev serving : Server
serving = record fresh { store = some stored }

abbrev no_answer : String → RegisterAnswer
no_answer name = rejected

abbrev start : String → Start
start name = started

sync_and_register-handle_sync_proxies_example :
    any
      (λ n. n == "web")
      (sync_and_register no_answer start
        (some (map item_of (handle_sync_proxies false "c1" serving)))
        []
        []).0
    ≡ any
        (λ (p : Row).
          (p.client_name == client_name_for "c1" serving && p.enabled) && p.name == "web")
        stored.proxies
sync_and_register-handle_sync_proxies_example =
    sync_and_register-handle_sync_proxies no_answer start serving stored "c1" "web" refl
