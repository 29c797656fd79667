-- ===== src/Client/Backends.antt =====
-- cmd/client/main.go: startUDPDataChannel, handleUDPDataChannel, getOrCreateBackend, readBackend,
-- closeBackendSession and the part of shutdownProxies for one tunnel: the sessions of a UDP tunnel
-- on the side of the client. A socket is a handle; what net.DialUDP answers is an argument. Each
-- function is what a goroutine does between two waits.
use nexus_link.Base.{ℕ}
use nexus_link.Base.{
  Bool, true, false, Option, none, some, List, [], ◌∷◌, ◌++◌, ltb, nat_eq, if◌then◌else◌,
}
use nexus_link.Base.{Eq-nat, Eq-string, Eq-bytes, Eq-pair}
use nexus_link.Base.{length}
use nexus_link.Base.Dict.{Dict, lookup, insert, remove}
use nexus_link.Auth.Sign.{Hmac, Auth, sign, verify}
use nexus_link.Protocol.Envelope.{UdpEnvelope, marshal_envelope, unmarshal_envelope}

pub record Backend : Type 0 where
  pub conn : ℕ
  pub last_active : ℕ

-- the sessions, the backend sockets that are not closed, and whether the channel udpQuit is closed
pub record UdpSide : Type 0 where
  pub sessions : Dict (List ℕ) Backend
  pub sockets : List ℕ
  pub stopped : Bool

-- what the client writes: to a backend, or over the data socket to the server
pub data Written : Type 0 where
  to_backend : ℕ → List ℕ → Written
  to_server : List ℕ → Written

-- Close of a socket
unfoldable pub close_conn : ℕ → List ℕ → List ℕ
close_conn h [] = []
close_conn h (k ∷ ks) = let rest = close_conn h ks in if nat_eq k h then ks else k ∷ rest

-- the socket of a session, dialled if the session is new
unfoldable pub get_or_create_backend : ℕ → Option ℕ → List ℕ → UdpSide → Option ℕ × UdpSide
get_or_create_backend now dial sid u = elim (lookup sid u.sessions) [
  | some b ↦
      (some b.conn, record u { sessions = insert sid (record b { last_active = now }) u.sessions })
  | none ↦ elim dial [
    | none ↦ (none, u)
    | some conn ↦ (
      some conn,
      record u {
        sessions = insert sid (record { conn = conn; last_active = now }) u.sessions;
        sockets = u.sockets ++ (conn ∷ []);
      },
    )
  ]
]

unfoldable pub close_backend_session : List ℕ → UdpSide → UdpSide
unfolding close_conn
close_backend_session sid u = elim (lookup sid u.sessions) [
  | some b ↦ record u { sessions = remove sid u.sessions; sockets = close_conn b.conn u.sockets }
  | none ↦ u
]

abbrev pub write_backend : List ℕ → Option ℕ × UdpSide → UdpSide × List Written
write_backend payload (none, u) = (u, [])
write_backend payload (some conn, u) = (u, to_backend conn payload ∷ [])

-- the `switch` on the kind
unfoldable pub handle_kind : ℕ → Option ℕ → UdpEnvelope → UdpSide → UdpSide × List Written
unfolding get_or_create_backend close_backend_session
handle_kind now dial env u =
    if nat_eq env.kind 1
    then ((get_or_create_backend now dial env.session_id u).1, [])
    else if nat_eq env.kind 2
    then (if nat_eq (length env.payload) 0
        then (u, [])
        else write_backend env.payload (get_or_create_backend now dial env.session_id u))
    else if nat_eq env.kind 3
    then (close_backend_session env.session_id u, [])
    else (u, [])

-- what is verified is decoded
unfoldable pub handle_opened : ℕ → Option ℕ → Option (List ℕ) → UdpSide → UdpSide × List Written
unfolding handle_kind
handle_opened now dial none u = (u, [])
handle_opened now dial (some bytes) u = elim (unmarshal_envelope bytes) [
  | none ↦ (u, [])
  | some env ↦ handle_kind now dial env u
]

-- the range over the sessions
unfoldable pub close_all : Dict (List ℕ) Backend → List ℕ → List ℕ
unfolding close_conn
close_all [] sockets = sockets
close_all ((sid, b) ∷ rest) sockets = close_all rest (close_conn b.conn sockets)

-- shutdownProxies on one tunnel; `none` is a panic, as udpQuit is closed twice
unfoldable pub shutdown : UdpSide → Option UdpSide
unfolding close_all
shutdown u =
    if u.stopped
    then none
    else some (record { sessions = []; sockets = close_all u.sessions u.sockets; stopped = true })

-- handleCloseProxy on one tunnel: its sessions stay
unfoldable pub stop : UdpSide → UdpSide
stop u = record u { stopped = true }

module _ (hmac : Hmac) (a : Auth) where
  -- a round of handleUDPDataChannel; `time` in seconds verifies, `now` marks activity
  unfoldable pub handle_datagram : ℕ → ℕ → Option ℕ → List ℕ → UdpSide → UdpSide × List Written
  unfolding handle_opened
  handle_datagram time now dial bytes u = handle_opened now dial (verify hmac a time bytes) u

  abbrev pub packed : ℕ → UdpEnvelope → List ℕ
  packed time env = sign hmac a time (marshal_envelope env)

  -- startUDPDataChannel, once the socket is open: the greeting that makes the client known
  unfoldable pub start_channel : ℕ → UdpSide × List Written
  start_channel time = (
    record { sessions = []; sockets = []; stopped = false },
    to_server (packed time (record { kind = 0; session_id = []; payload = [] })) ∷ [],
  )

  -- a read of readBackend
  unfoldable pub read_backend : ℕ → List ℕ → List ℕ → List Written
  read_backend time sid bytes =
      let signed = packed time (record { kind = 2; session_id = sid; payload = bytes }) in
      if nat_eq (length bytes) 0
      then []
      else if ltb 65507 (length signed)
      then []
      else to_server signed ∷ []

  -- the end of readBackend
  unfoldable pub end_backend : ℕ → List ℕ → UdpSide → UdpSide × List Written
  unfolding close_backend_session
  end_backend time sid u = (
    close_backend_session sid u,
    to_server (packed time (record { kind = 3; session_id = sid; payload = [] })) ∷ [],
  )
