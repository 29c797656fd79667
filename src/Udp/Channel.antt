-- ===== src/Udp/Channel.antt =====
-- cmd/server/main.go: handleUDPConnections, sendUDPToClient, handleUDPDataChannel,
-- getOrCreateSession and cleanupUDPSessions, on the fields of a proxy that they share. A session id is
-- its text, as bytes; a UDP address is its text. Each function is what one round of a loop does with a
-- datagram, between two waits; sendUDPToClient takes the lock twice, and so is two steps.
use nexus_link.Base.{ℕ, zero, suc, ◌+◌, ◌-◌, ◌/◌, ◌%◌, ◌^◌, String}
use nexus_link.Base.{
  Bool, true, false, Option, none, some, List, [], ◌∷◌, ◌++◌, ltb, nat_eq, if◌then◌else◌,
}
use nexus_link.Base.{Eq-nat, Eq-string, Eq-bytes}
use nexus_link.Base.{length}
use nexus_link.Base.Dict.{Dict, lookup, insert, remove, keys}
use nexus_link.Base.Word.{add64}
use nexus_link.Auth.Sign.{Hmac, Auth, sign, verify}
use nexus_link.Protocol.Envelope.{UdpEnvelope, marshal_envelope, unmarshal_envelope}

abbrev pub max_datagram : ℕ
max_datagram = 65507

abbrev pub max_pending : ℕ
max_pending = 1024

-- 5 * time.Minute, in nanoseconds
abbrev pub idle_limit : ℕ
idle_limit = 300_000_000_000

pub record Session : Type 0 where
  pub user_addr : String
  pub last_active : ℕ

pub record Channel : Type 0 where
  pub client_addr : Option String
  pub sessions : Dict (List ℕ) Session
  pub addr_index : Dict String (List ℕ)
  pub session_seq : ℕ
  pub pending_out : List UdpEnvelope

-- what the server writes: to the client over the data socket, or to a user over the public one
pub data Output : Type 0 where
  to_client : List ℕ → String → Output
  to_user : List ℕ → String → Output

-- a digit of `%x`
unfoldable pub hex_digit : ℕ → ℕ
hex_digit d = if ltb d 10 then d + b'0' else d - 10 + b'a'

unfoldable pub to_hex : ℕ → ℕ → List ℕ
unfolding hex_digit
to_hex zero n = []
to_hex (suc k) n = hex_digit (n / 16 ^ k % 16) ∷ to_hex k n

-- fmt.Sprintf("%016x", n) of a uint64
unfoldable pub session_id : ℕ → List ℕ
session_id n = to_hex 16 n

unfoldable pub get_or_create_session : ℕ → String → Channel → (List ℕ × Bool) × Channel
get_or_create_session now user c = elim (lookup user c.addr_index) [
  | some sid ↦ (
    (sid, false),
    elim (lookup sid c.sessions) [
      | some s ↦ record c { sessions = insert sid (record s { last_active = now }) c.sessions }
      | none ↦ c
    ],
  )
  | none ↦
      let seq = add64 c.session_seq 1 in
      let sid = session_id seq in
      (
        (sid, true),
        record c {
          session_seq = seq;
          sessions = insert sid (record { user_addr = user; last_active = now }) c.sessions;
          addr_index = insert user sid c.addr_index;
        },
      )
]

-- a session and the entry of its user are deleted together
unfoldable pub delete_session : List ℕ → Session → Channel → Channel
delete_session sid s c = record c {
  sessions = remove sid c.sessions;
  addr_index = remove s.user_addr c.addr_index;
}

-- kind 0x03: the client closes a session
unfoldable pub close_session : List ℕ → Channel → Channel
unfolding delete_session
close_session sid c = elim (lookup sid c.sessions) [ some s ↦ delete_session sid s c | none ↦ c ]

-- the range over the sessions, in some order of their ids; one that is gone is not visited
unfoldable pub cleanup_loop : ℕ → List (List ℕ) → Channel → Channel
unfolding delete_session
cleanup_loop now [] c = c
cleanup_loop now (sid ∷ rest) c = cleanup_loop now rest (elim (lookup sid c.sessions) [
  | some s ↦ if ltb idle_limit (now - s.last_active) then delete_session sid s c else c
  | none ↦ c
])

-- one tick of cleanupUDPSessions
unfoldable pub cleanup_sessions : ℕ → Channel → Channel
unfolding cleanup_loop
cleanup_sessions now c = cleanup_loop now (keys c.sessions) c

module _ (hmac : Hmac) (a : Auth) where
  -- proxy.Auth.Sign(protocol.MarshalEnvelope(env)), at a time in seconds
  abbrev pub signed : ℕ → UdpEnvelope → List ℕ
  signed now env = sign hmac a now (marshal_envelope env)

  -- sendUDPToClient up to the release of the read lock: a datagram goes out, or is dropped, or `true`
  -- says that the envelope is to be queued
  unfoldable pub send_begin : ℕ → UdpEnvelope → Channel → Bool × List Output
  send_begin now env c =
      if ltb max_datagram (length (signed now env)) then (false, []) else elim c.client_addr [
        | none ↦ (true, [])
        | some addr ↦ (false, to_client (signed now env) addr ∷ [])
      ]

  -- sendUDPToClient under the write lock
  unfoldable pub send_enqueue : UdpEnvelope → Channel → Channel
  send_enqueue env c =
      if ltb (length c.pending_out) max_pending
      then record c { pending_out = c.pending_out ++ (env ∷ []) }
      else c

  -- sendUDPToClient when nothing comes between its two steps
  unfoldable pub send_to_client : ℕ → UdpEnvelope → Channel → Channel × List Output
  unfolding send_begin send_enqueue
  send_to_client now env c =
      let (queue, out) = send_begin now env c in (if queue then send_enqueue env c else c, out)

  -- a new session is announced to the client first
  unfoldable pub announce : ℕ → Bool → UdpEnvelope → Channel → Channel × List Output
  unfolding send_to_client
  announce now is_new register c = if is_new then send_to_client now register c else (c, [])

  -- a round of handleUDPConnections; `now` in seconds signs, `clock` in nanoseconds marks activity
  unfoldable pub handle_user_packet : ℕ → ℕ → String → List ℕ → Channel → Channel × List Output
  unfolding announce send_to_client get_or_create_session
  handle_user_packet now clock user payload c =
      if nat_eq (length payload) 0
      then (c, [])
      else let ((sid, is_new), c1) = get_or_create_session clock user c in
        let register : UdpEnvelope = record { kind = 1; session_id = sid; payload = [] } in
        let packet : UdpEnvelope = record { kind = 2; session_id = sid; payload = payload } in
        let (c2, out) = announce now is_new register c1 in
        let (c3, out') = send_to_client now packet c2 in (c3, out ++ out')

  -- the flush of what was queued, to the address that is now registered
  unfoldable pub flush : ℕ → String → List UdpEnvelope → List Output
  flush now addr [] = []
  flush now addr (env ∷ envs) = to_client (signed now env) addr ∷ flush now addr envs

  -- the first part of a round of handleUDPDataChannel: the first datagram registers its sender
  unfoldable pub register_client : ℕ → String → Channel → Channel × List Output
  unfolding flush
  register_client now from c = elim c.client_addr [
    | none ↦ (record c { client_addr = some from; pending_out = [] }, flush now from c.pending_out)
    | some _ ↦ (c, [])
  ]

-- kind 0x02: a packet of the backend goes to the user of its session, which is active now
unfoldable pub return_data : ℕ → UdpEnvelope → Channel → Channel × List Output
return_data clock env c = elim (lookup env.session_id c.sessions) [
  | none ↦ (c, [])
  | some s ↦
      if ltb 0 (length env.payload)
      then (
        record c { sessions = insert env.session_id (record s { last_active = clock }) c.sessions },
        to_user env.payload s.user_addr ∷ [],
      )
      else (c, [])
]

-- the `switch` on the kind
unfoldable pub handle_envelope : ℕ → UdpEnvelope → Channel → Channel × List Output
unfolding return_data close_session
handle_envelope clock env c =
    if nat_eq env.kind 2
    then return_data clock env c
    else if nat_eq env.kind 3
    then (close_session env.session_id c, [])
    else (c, [])

-- a datagram that is verified and decoded is handled, any other is ignored
unfoldable pub handle_verified : ℕ → Option (List ℕ) → Channel → Channel × List Output
unfolding handle_envelope
handle_verified clock none c = (c, [])
handle_verified clock (some bytes) c = elim (unmarshal_envelope bytes) [
  | none ↦ (c, [])
  | some env ↦ handle_envelope clock env c
]

module _ (hmac : Hmac) (a : Auth) where
  -- a round of handleUDPDataChannel
  unfoldable pub handle_data_packet : ℕ → ℕ → String → List ℕ → Channel → Channel × List Output
  unfolding register_client handle_verified
  handle_data_packet now clock from bytes c =
      let (c1, out) = register_client hmac a now from c in
      let (c2, out') = handle_verified clock (verify hmac a now bytes) c1 in (c2, out ++ out')

  -- what the goroutines of a channel do: a datagram of a user, one on the data socket, a tick of
  -- cleanup
  pub data Event : Type 0 where
    from_user : ℕ → ℕ → String → List ℕ → Event
    from_data : ℕ → ℕ → String → List ℕ → Event
    tick : ℕ → Event

  unfoldable pub run_event : Event → Channel → Channel
  unfolding handle_user_packet handle_data_packet cleanup_sessions
  run_event (from_user now clock user payload) c =
      (handle_user_packet hmac a now clock user payload c).0
  run_event (from_data now clock from bytes) c = (handle_data_packet now clock from bytes c).0
  run_event (tick clock) c = cleanup_sessions clock c

  unfoldable pub run_events : List Event → Channel → Channel
  unfolding run_event
  run_events [] c = c
  run_events (e ∷ es) c = run_events es (run_event e c)
