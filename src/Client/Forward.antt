-- ===== src/Client/Forward.antt =====
-- cmd/client/main.go: handleNewConn and forwardWithAuth. A socket is a handle; what dialling and
-- writing answer is an argument. Each loop of forwardWithAuth takes what its peer does, as on the
-- server.
use nexus_link.Base.{ℕ, String}
use nexus_link.Base.{Bool, not, Option, none, some, List, [], ◌∷◌, ◌++◌, ltb, if◌then◌else◌}
use nexus_link.Base.{◌==◌, Eq-nat, Eq-string, Eq-bytes, Eq-pair}
use nexus_link.Base.{length}
use nexus_link.Base.Dict.{lookup}
use nexus_link.Base.Word.{add64}
use nexus_link.Wire.Stream.{Error, io_failure, Result, ok, err, Conn}
use nexus_link.Auth.Sign.{Hmac, Auth, sign_framed, read_framed}
use nexus_link.Tunnel.Forward.{Read}
use nexus_link.Client.Registration.{Table}

-- what a loop has written, its counter of the tunnel (a bit pattern of int64) and why it stopped
pub record Side : Type 0 where
  pub written : List ℕ
  pub counter : ℕ
  pub stopped : Option Error

abbrev pub idle_side : Side
idle_side = record { written = []; counter = 0; stopped = none }

-- one round of the loop from the server, on what ReadFramed returned
unfoldable pub deliver_local : Bool → Result (List ℕ × Conn) → Conn → Side → Side × Conn
deliver_local writable (err e) c s = (record s { stopped = some e }, c)
deliver_local writable (ok (payload, d)) c s =
    let counted = record s { counter = add64 s.counter (length payload) } in
    if writable
    then (record counted { written = s.written ++ payload }, d)
    else (record counted { stopped = some io_failure }, d)

module _ (hmac : Hmac) (a : Auth) where
  -- the body of the loop to the server when n > 0: count, sign, write
  unfoldable pub send_local : Read → Side → Side
  send_local r s =
      let counted = record s { counter = add64 s.counter (length r.chunk) } in
      if r.writable
      then record counted { written = s.written ++ sign_framed hmac a r.now r.chunk }
      else record counted { stopped = some io_failure }

  -- one round of the loop to the server
  unfoldable pub read_local : Read → Side → Side
  unfolding send_local
  read_local r s =
      let s' = if ltb 0 (length r.chunk) then send_local r s else s in
      elim s'.stopped [ some e ↦ s' | none ↦ record s' { stopped = r.failed } ]

  -- local -> server
  unfoldable pub pump_up : List Read → Side → Side
  unfolding read_local
  pump_up [] s = s
  pump_up (r ∷ rs) s =
      let s' = read_local r s in
      let rest = pump_up rs s' in elim s'.stopped [ some e ↦ s' | none ↦ rest ]

  -- server -> local
  unfoldable pub pump_down : List (ℕ × Bool) → Conn → Side → Side × Conn
  unfolding deliver_local
  pump_down [] c s = (s, c)
  pump_down ((now, writable) ∷ ts) c s =
      let (s', d) = deliver_local writable (read_framed hmac a now c) c s in
      let rest = pump_down ts d s' in elim s'.stopped [ some e ↦ (s', d) | none ↦ rest ]

-- what handleNewConn does with the sockets that it opens: the pair that is forwarded, and those closed
pub record Opened : Type 0 where
  pub forwarded : Option (ℕ × ℕ)
  pub closed : List ℕ

abbrev nothing_opened : Opened
nothing_opened = record { forwarded = none; closed = [] }

-- the local socket is there: the data channel of the server, and its first message
unfoldable pub join_server : ℕ → Option ℕ → Bool → Opened
join_server k none written = record { forwarded = none; closed = k ∷ [] }
join_server k (some d) written =
    if not written
    then record { forwarded = none; closed = d ∷ k ∷ [] }
    else record { forwarded = some (k, d); closed = [] }

unfoldable pub open_local : Option ℕ → Option ℕ → Bool → Opened
unfolding join_server
open_local none dial written = nothing_opened
open_local (some k) dial written = join_server k dial written

-- handleNewConn: `local_dial` and `data_dial` are the answers of the two dials
unfoldable pub handle_new_conn : Option String → Table → Option ℕ → Option ℕ → Bool → Opened
unfolding open_local
handle_new_conn none t local_dial data_dial written = nothing_opened
handle_new_conn (some name) t local_dial data_dial written = elim (lookup name t) [
  | none ↦ nothing_opened
  | some p ↦
      if not (p.config.type == "tcp")
      then nothing_opened
      else open_local local_dial data_dial written
]
