-- ===== src/Tunnel/Forward.antt =====
-- cmd/server/main.go, forwardWithAuth. Each goroutine is a loop over what its peer does: the reads that
-- the connection returns, or the times at which ReadFramed is called, each with the outcome of the
-- write that follows. The calls of addClientTraffic are listed, and made by the component of that name.
use nexus_link.Base.{ℕ, ◌*◌}
use nexus_link.Base.{Bool, Option, none, some, List, [], ◌∷◌, ◌++◌, ltb, if◌then◌else◌}
use nexus_link.Base.{Eq-nat, Eq-string, Eq-bytes}
use nexus_link.Base.{length}
use nexus_link.Base.Word.{add64}
use nexus_link.Wire.Stream.{Error, io_failure, Result, ok, err, Conn}
use nexus_link.Auth.Sign.{Hmac, Auth, sign_framed, read_framed}

abbrev pub buf_size : ℕ
buf_size = 32 * 1024

-- n, err := userConn.Read(buf) at a time, and whether the write after it succeeds
pub record Read : Type 0 where
  pub chunk : List ℕ
  pub failed : Option Error
  pub now : ℕ
  pub writable : Bool

-- What a loop has done: the bytes that it wrote, its proxy's counter (a bit pattern of int64), the
-- amounts that it reported to addClientTraffic, and the error on which it stopped.
pub record Pumped : Type 0 where
  pub written : List ℕ
  pub counter : ℕ
  pub traffic : List ℕ
  pub stopped : Option Error

-- one round of the second loop, on what ReadFramed returned
unfoldable pub deliver : Bool → Result (List ℕ × Conn) → Conn → Pumped → Pumped × Conn
deliver writable (err e) c s = (record s { stopped = some e }, c)
deliver writable (ok (payload, d)) c s =
    let n = length payload in
    let counted = record s { counter = add64 s.counter n; traffic = s.traffic ++ (n ∷ []) } in
    if writable
    then (record counted { written = s.written ++ payload }, d)
    else (record counted { stopped = some io_failure }, d)

module _ (hmac : Hmac) (a : Auth) where
  -- the body of the first loop when n > 0: count, sign, write
  unfoldable pub send_chunk : Read → Pumped → Pumped
  send_chunk r s =
      let n = length r.chunk in
      let counted = record s { counter = add64 s.counter n; traffic = s.traffic ++ (n ∷ []) } in
      if r.writable
      then record counted { written = s.written ++ sign_framed hmac a r.now r.chunk }
      else record counted { stopped = some io_failure }

  -- one round of the first loop: the chunk, if there is one, then the error of the read
  unfoldable pub pump_read : Read → Pumped → Pumped
  unfolding send_chunk
  pump_read r s =
      let s' = if ltb 0 (length r.chunk) then send_chunk r s else s in
      elim s'.stopped [ some e ↦ s' | none ↦ record s' { stopped = r.failed } ]

  -- user -> client
  unfoldable pub pump_signed : List Read → Pumped → Pumped
  unfolding pump_read
  pump_signed [] s = s
  pump_signed (r ∷ rs) s =
      let s' = pump_read r s in
      let rest = pump_signed rs s' in elim s'.stopped [ some e ↦ s' | none ↦ rest ]

  -- client -> user: one round at each of the given times, until an error
  unfoldable pub pump_verified : List (ℕ × Bool) → Conn → Pumped → Pumped × Conn
  unfolding deliver
  pump_verified [] c s = (s, c)
  pump_verified ((now, writable) ∷ ts) c s =
      let (s', d) = deliver writable (read_framed hmac a now c) c s in
      let rest = pump_verified ts d s' in elim s'.stopped [ some e ↦ (s', d) | none ↦ rest ]

abbrev pub idle : Pumped
idle = record { written = []; counter = 0; traffic = []; stopped = none }
