-- ===== src/Tunnel/Rendezvous.antt =====
-- cmd/server/main.go: handleTCPUserConnection and acceptDataConnections of one tunnel, which meet
-- in the map `pending`. Each function is what a goroutine does between two waits. A channel is a
-- handle, counted up by `make`; sockets are handles. The loop of accepts is one goroutine, so that
-- it has at most one connection in its hand. The notice to the client and the entry in the map are
-- one step: a data connection that comes between the two finds nothing, as one that comes before
-- both.
use nexus_link.Base.{ℕ, ◌+◌, String, ◌≡◌}
use nexus_link.Base.{
  Bool, true, not, Option, none, some, List, [], ◌∷◌, ◌++◌, nat_eq, if◌then◌else◌,
}
use nexus_link.Base.{Eq-nat, Eq-string, Eq-bytes, Eq-pair}
use nexus_link.Base.Dict.{Dict, lookup, insert, remove}
use nexus_link.Wire.Stream.{Result, ok, err, Conn}
use nexus_link.Protocol.Message.{Message, type_data_conn, parse_message}

-- a handler that waits for its channel: its user and the id that the client was told
pub record Waiter : Type 0 where
  pub user : ℕ
  pub conn_id : String

-- a data connection and the id of its first message
pub record DataConn : Type 0 where
  pub conn : ℕ
  pub conn_id : String

pub record Rendezvous : Type 0 where
  pub ready : Bool
  pub pending : Dict String ℕ
  pub next_channel : ℕ
  pub waiters : Dict ℕ Waiter
  pub buffers : Dict ℕ DataConn
  pub in_hand : Option (ℕ × DataConn)
  pub joined : List (Waiter × DataConn)
  pub closed : List ℕ

abbrev pub close_socket : ℕ → Rendezvous → Rendezvous
close_socket k s = record s { closed = k ∷ s.closed }

-- a tunnel whose data listener is open
abbrev pub new_rendezvous : Rendezvous
new_rendezvous = record {
  ready = true;
  pending = [];
  next_channel = 0;
  waiters = [];
  buffers = [];
  in_hand = none;
  joined = [];
  closed = [];
}

-- handleTCPUserConnection up to the `select`: `notified` says whether the client could be told
unfoldable pub wait_user : Bool → String → ℕ → Rendezvous → Rendezvous
wait_user notified conn_id user s =
    if not notified
    then close_socket user s
    else if not s.ready
    then close_socket user s
    else record s {
      pending = insert conn_id s.next_channel s.pending;
      next_channel = s.next_channel + 1;
      waiters = insert s.next_channel (record { user = user; conn_id = conn_id }) s.waiters;
    }

abbrev pub id_of : Result String → Option String
id_of (ok id) = some id
id_of (err e) = none

-- the id in the first message of a data connection, if it is one
unfoldable pub identified : (List ℕ → Result String) → Result (Message × Conn) → Option String
identified unmarshal (err e) = none
identified unmarshal (ok (msg, rest)) =
    if not (nat_eq msg.type type_data_conn) then none else id_of (parse_message unmarshal msg)

-- acceptDataConnections from the first message to the unlock; a connection that nobody waits for is
-- closed
unfoldable pub claim : Option String → ℕ → Rendezvous → Rendezvous
claim none conn s = close_socket conn s
claim (some id) conn s = elim (lookup id s.pending) [
  | some ch ↦ record s {
    pending = remove id s.pending;
    in_hand = some (ch, record { conn = conn; conn_id = id });
  }
  | none ↦ close_socket conn s
]

-- ch <- conn
unfoldable pub hand_over : ℕ → DataConn → Rendezvous → Rendezvous
hand_over ch d s = record s { in_hand = none; buffers = insert ch d s.buffers }

-- dataConn = <-ch, and forwardWithAuth starts
unfoldable pub take_data : ℕ → Waiter → DataConn → Rendezvous → Rendezvous
take_data ch w d s = record s {
  waiters = remove ch s.waiters;
  buffers = remove ch s.buffers;
  joined = (w, d) ∷ s.joined;
}

-- the other case of the `select`
unfoldable pub time_out : ℕ → Waiter → Rendezvous → Rendezvous
time_out ch w s =
    close_socket w.user
      (record s { pending = remove w.conn_id s.pending; waiters = remove ch s.waiters })

-- forwardWithAuth has returned, and the deferred calls close both sockets
unfoldable pub finish :
    List (Waiter × DataConn)
    → Waiter
    → DataConn
    → List (Waiter × DataConn)
    → Rendezvous
    → Rendezvous
finish before w d after s =
    close_socket w.user (close_socket d.conn (record s { joined = before ++ after }))

-- what can happen next, in any order that the scheduler, the users, the client and the clock choose
pub data Step : Rendezvous → Rendezvous → Type 0 where
  arrives :
      (s : Rendezvous) (notified : Bool) (conn_id : String) (user : ℕ)
      → Step s (wait_user notified conn_id user s)
  connects :
      (s : Rendezvous) (first : Option String) (conn : ℕ)
      → s.in_hand ≡ none
      → Step s (claim first conn s)
  sends :
      (s : Rendezvous) (ch : ℕ) (d : DataConn)
      → s.in_hand ≡ some (ch, d)
      → lookup ch s.buffers ≡ none
      → Step s (hand_over ch d s)
  receives :
      (s : Rendezvous) (ch : ℕ) (w : Waiter) (d : DataConn)
      → lookup ch s.waiters ≡ some w
      → lookup ch s.buffers ≡ some d
      → Step s (take_data ch w d s)
  expires :
      (s : Rendezvous) (ch : ℕ) (w : Waiter)
      → lookup ch s.waiters ≡ some w
      → Step s (time_out ch w s)
  ends :
      (s : Rendezvous) (before : List (Waiter × DataConn)) (w : Waiter) (d : DataConn)
      (after : List (Waiter × DataConn))
      → s.joined ≡ before ++ ((w, d) ∷ after)
      → Step s (finish before w d after s)

pub data Reach : Rendezvous → Type 0 where
  fresh : Reach new_rendezvous
  further : {s t : Rendezvous} → Reach s → Step s t → Reach t
