-- ===== src/Udp/Tests.antt =====
-- A channel with two users, and one without a client.
use nexus_link.Base.{◌≤◌, String, ◌≡◌, refl, ◌↔◌}
use nexus_link.Base.{true, none, some, List, [], ◌∷◌, arith}
use nexus_link.Base.{Eq-nat, Eq-string, Eq-bytes}
use nexus_link.Base.{length, map, take}
use nexus_link.Base.Dict.{lookup}
use nexus_link.Wire.Endian.{to_be, of_be}
use nexus_link.Auth.Sign.{verify, sign}
use nexus_link.Protocol.Envelope.{UdpEnvelope, marshal_envelope}
use nexus_link.Auth.Tests.{checksum, key}
use nexus_link.Udp.Users.{get_or_create-eq}
use nexus_link.Udp.Channel.{
  Channel, to_client, to_user, idle_limit, session_id, get_or_create_session, cleanup_sessions,
  send_begin, send_enqueue, handle_user_packet, register_client, handle_envelope,
  handle_data_packet, Event, from_user, from_data, tick, run_events,
}
use nexus_link.Udp.Pairing.{IsPaired}
use nexus_link.Udp.Cleanup.{lookup-cleanup_sessions}
use nexus_link.Udp.Sessions.{run_events-IsPaired, return-user_packet}
use nexus_link.Udp.Registration.{
  run_events_registered, handle_data_packet_first, enqueue_after_register,
}
use nexus_link.Udp.Waiting.{send_all, register-send_all}

abbrev empty : Channel
empty = record {
  client_addr = none;
  sessions = [];
  addr_index = [];
  session_seq = 0;
  pending_out = [];
}

abbrev pub served : Channel
served = record {
  client_addr = some "198.51.100.2:9";
  sessions = [];
  addr_index = [];
  session_seq = 0;
  pending_out = [];
}

empty-IsPaired : IsPaired empty
unfolding lookup
empty-IsPaired = record { forward = λ u sid h. cc; backward = λ sid s h. cc; given = λ sid s h. cc }

pub served-IsPaired : IsPaired served
unfolding lookup
served-IsPaired = record {
  forward = λ u sid h. cc;
  backward = λ sid s h. cc;
  given = λ sid s h. cc;
}

abbrev user_a : String
user_a = "203.0.113.1:5"

abbrev user_b : String
user_b = "203.0.113.1:6"

get_or_create-eq_example :
    let ((sid, is_new), c1) = get_or_create_session 0 user_a empty in
    let ((sid', is_new'), c2) = get_or_create_session 1 user_b c1 in
    (sid ≡ sid') ↔ (user_a ≡ user_b)
get_or_create-eq_example = get_or_create-eq 0 1 user_a user_b empty empty-IsPaired (omega arith)

abbrev events : List (Event checksum key)
events =
    from_user 1000 0 "203.0.113.1:5" (1 ∷ 2 ∷ [])
    ∷ from_user 1001 1 "203.0.113.1:6" (3 ∷ [])
    ∷ from_data 1001 2 "198.51.100.2:9" []
    ∷ tick 400_000_000_000
    ∷ []

run_events-IsPaired_example : IsPaired (run_events checksum key events empty)
run_events-IsPaired_example =
    run_events-IsPaired checksum key events empty empty-IsPaired (omega arith)

return-user_packet_test :
    (handle_envelope 5
      (record {
        kind = 2;
        session_id = (get_or_create_session 0 "203.0.113.1:5" served).0.0;
        payload = 9 ∷ [];
      })
      (handle_user_packet checksum key 1000 0 "203.0.113.1:5" (1 ∷ []) served).0).1
    ≡ to_user (9 ∷ []) "203.0.113.1:5" ∷ []
return-user_packet_test =
    return-user_packet checksum key 1000 0 5 "203.0.113.1:5" (1 ∷ []) (9 ∷ []) served
      served-IsPaired (omega arith) (omega arith)

abbrev active : Channel
active = (get_or_create_session 0 "203.0.113.1:5" served).1

lookup-cleanup_sessions_test :
    (lookup (session_id 1) (cleanup_sessions 300_000_000_000 active).sessions
      ≡ some (record { user_addr = "203.0.113.1:5"; last_active = 0 }))
    ↔ ((lookup (session_id 1) active.sessions
          ≡ some (record { user_addr = "203.0.113.1:5"; last_active = 0 }))
        × (300_000_000_000 ≤ idle_limit))
lookup-cleanup_sessions_test =
    lookup-cleanup_sessions 300_000_000_000 active (session_id 1)
      (record { user_addr = "203.0.113.1:5"; last_active = 0 })

run_events_registered_test :
    ((run_events checksum key events served).client_addr ≡ some "198.51.100.2:9")
    × ((run_events checksum key events served).pending_out ≡ [])
run_events_registered_test = run_events_registered checksum key events served "198.51.100.2:9" refl

abbrev hello : UdpEnvelope
hello = record { kind = 2; session_id = b'x' ∷ []; payload = 1 ∷ [] }

abbrev waiting : Channel
waiting = record empty { pending_out = hello ∷ [] }

-- one byte from anywhere
handle_data_packet_first_example :
    let (c', out) = handle_data_packet checksum key 1000 0 "192.0.2.66:1" (0 ∷ []) waiting in
    (out
      ≡ map
          (λ env. to_client (sign checksum key 1000 (marshal_envelope env)) "192.0.2.66:1")
          (hello ∷ []))
    × ((run_events checksum key events c').client_addr ≡ some "192.0.2.66:1")
handle_data_packet_first_example =
    handle_data_packet_first checksum key 1000 0 "192.0.2.66:1" (0 ∷ []) waiting events refl
      (unfold verify in refl)

hello_fits : length (sign checksum key 1000 (marshal_envelope hello)) ≤ 65507
unfolding sign marshal_envelope to_be of_be checksum
hello_fits = omega arith

register-send_all_example :
    ((send_all checksum key 1000 (hello ∷ hello ∷ []) empty).1 ≡ [])
    × ((register_client checksum key 1003 "198.51.100.2:9"
          (send_all checksum key 1000 (hello ∷ hello ∷ []) empty).0).1
        ≡ map
            (λ env. to_client (sign checksum key 1003 (marshal_envelope env)) "198.51.100.2:9")
            (take 1024 (hello ∷ hello ∷ [])))
register-send_all_example =
    register-send_all checksum key 1000 1003 "198.51.100.2:9" (hello ∷ hello ∷ []) empty refl refl
      (hello_fits, (hello_fits, tt))

queues : (send_begin checksum key 1000 hello empty).0 ≡ true
unfolding send_begin sign marshal_envelope to_be of_be checksum
queues = refl

enqueue_after_register_test :
    (run_events checksum key events (
      send_enqueue checksum key hello
        (register_client checksum key 1000 "198.51.100.2:9" empty).0)).pending_out
    ≡ hello ∷ []
enqueue_after_register_test =
    enqueue_after_register checksum key 1000 "198.51.100.2:9" hello empty events queues
