-- ===== src/Relay/Stream.antt =====
-- A TCP connection through the tunnel: the loops of the server and the loops of the client.
use nexus_link.Base.{ℕ, ◌≡◌, refl, sym, ap, ◌∙◌, inl, inr}
use nexus_link.Base.{Bool, true, false, Option, none, some, List, [], ◌∷◌, ltb, if◌then◌else◌}
use nexus_link.Base.{Bool-cases, Option-cases, Eq-nat, Eq-string, Eq-bytes, Eq-pair}
use nexus_link.Base.{length, All}
use nexus_link.Wire.Stream.{Error, Result, ok, err, Conn}
use nexus_link.Auth.Sign.{Hmac, Auth, read_framed}
use nexus_link.Tunnel.Forward.{
  Read, Pumped, pump_read, send_chunk, pump_signed, deliver, pump_verified, idle,
}
use nexus_link.Tunnel.EndToEnd.{Flows, chunks, Follows, end_to_end}
use nexus_link.Client.Forward.{
  Side, idle_side, deliver_local, send_local, read_local, pump_up, pump_down,
}

-- a loop of the server without its reports of traffic
abbrev side_of : Pumped → Side
side_of s = record { written = s.written; counter = s.counter; stopped = s.stopped }

deliver_local-side_of :
    (w : Bool) (r : Result (List ℕ × Conn)) (c : Conn) (s : Pumped)
    → deliver_local w r c (side_of s) ≡ (side_of (deliver w r c s).0, (deliver w r c s).1)
unfolding deliver_local deliver
deliver_local-side_of w (err e) c s = refl
deliver_local-side_of true (ok (payload, d)) c s = refl
deliver_local-side_of false (ok (payload, d)) c s = refl

-- the error of a read stops a loop that has not stopped yet
abbrev fail_side : Option Error → Side → Side
fail_side failed s = elim s.stopped [ some e ↦ s | none ↦ record s { stopped = failed } ]

abbrev fail_pumped : Option Error → Pumped → Pumped
fail_pumped failed s = elim s.stopped [ some e ↦ s | none ↦ record s { stopped = failed } ]

fail_side-side_of :
    (failed : Option Error) (s : Pumped)
    → fail_side failed (side_of s) ≡ side_of (fail_pumped failed s)
fail_side-side_of failed s = elim (Option-cases s.stopped) [
  | inl (e, q) ↦ rw q refl
  | inr q ↦ rw q refl
]

-- a loop that has stopped does not go on
abbrev go_on : Side → Side → Side
go_on s rest = elim s.stopped [ some e ↦ s | none ↦ rest ]

abbrev go_on_pumped : Pumped → Pumped → Pumped
go_on_pumped s rest = elim s.stopped [ some e ↦ s | none ↦ rest ]

go_on-side_of : (s rest : Pumped) → go_on (side_of s) (side_of rest) ≡ side_of (go_on_pumped s rest)
go_on-side_of s rest = elim (Option-cases s.stopped) [ inl (e, q) ↦ rw q refl | inr q ↦ rw q refl ]

abbrev go_on_from : Side × Conn → Side × Conn → Side × Conn
go_on_from s rest = elim s.0.stopped [ some e ↦ s | none ↦ rest ]

abbrev go_on_pumped_from : Pumped × Conn → Pumped × Conn → Pumped × Conn
go_on_pumped_from s rest = elim s.0.stopped [ some e ↦ s | none ↦ rest ]

go_on_from-side_of :
    (s rest : Pumped × Conn)
    → go_on_from (side_of s.0, s.1) (side_of rest.0, rest.1)
      ≡ (side_of (go_on_pumped_from s rest).0, (go_on_pumped_from s rest).1)
go_on_from-side_of s rest = elim (Option-cases s.0.stopped) [
  | inl (e, q) ↦ rw q refl
  | inr q ↦ rw q refl
]

module _ (hmac : Hmac) (a : Auth) where
  send_local-side_of :
      (r : Read) (s : Pumped) → send_local hmac a r (side_of s) ≡ side_of (send_chunk hmac a r s)
  unfolding send_local send_chunk
  send_local-side_of r s = elim (Bool-cases r.writable) [
    | inl q ↦ rw (q, send_local, send_chunk) refl
    | inr q ↦ rw (q, send_local, send_chunk) refl
  ]

  read_local-side_of :
      (r : Read) (s : Pumped) → read_local hmac a r (side_of s) ≡ side_of (pump_read hmac a r s)
  unfolding read_local pump_read
  read_local-side_of r s =
      let sent : Pumped = if ltb 0 (length r.chunk) then send_chunk hmac a r s else s in
      let same : (if ltb 0 (length r.chunk) then send_local hmac a r (side_of s) else side_of s)
          ≡ side_of sent =
        elim (Bool-cases (ltb 0 (length r.chunk))) [
          | inl q ↦ rw q (send_local-side_of r s)
          | inr q ↦ rw q refl
        ] in
      ap (fail_side r.failed) same ∙ fail_side-side_of r.failed sent

  pump_up-side_of :
      (rs : List Read) (s : Pumped)
      → pump_up hmac a rs (side_of s) ≡ side_of (pump_signed hmac a rs s)
  unfolding pump_up pump_signed
  pump_up-side_of [] s = refl
  pump_up-side_of (r ∷ rs) s =
      let p = pump_read hmac a r s in
      ap (λ x. go_on x (pump_up hmac a rs x)) (read_local-side_of r s)
      ∙ ap (go_on (side_of p)) (pump_up-side_of rs p)
      ∙ go_on-side_of p (pump_signed hmac a rs p)

  pump_down-side_of :
      (ts : List (ℕ × Bool)) (c : Conn) (s : Pumped)
      → pump_down hmac a ts c (side_of s)
        ≡ (side_of (pump_verified hmac a ts c s).0, (pump_verified hmac a ts c s).1)
  unfolding pump_down pump_verified
  pump_down-side_of [] c s = refl
  pump_down-side_of ((now, w) ∷ ts) c s =
      let p = deliver w (read_framed hmac a now c) c s in
      ap (λ (x : Side × Conn). go_on_from x (pump_down hmac a ts x.1 x.0))
        (deliver_local-side_of w (read_framed hmac a now c) c s)
      ∙ ap (go_on_from (side_of p.0, p.1)) (pump_down-side_of ts p.1 p.0)
      ∙ go_on_from-side_of p (pump_verified hmac a ts p.1 p.0)

  -- A connection through a tunnel, both sides of which have the same key: if every read returns
  -- data, every write succeeds and every frame is verified within 300 seconds of its signature,
  -- then the local service gets exactly the bytes of the user, and the user exactly those of the
  -- local service, each in order; nothing is left on the data connection, no loop has stopped, and
  -- the server and the client count alike, in either direction.
  pub stream :
      (rs rs' : List Read) (ts ts' : List (ℕ × Bool)) (e e' : Error)
      → All Flows rs
      → Follows ts rs
      → All Flows rs'
      → Follows ts' rs'
      → let sent = pump_signed hmac a rs idle in
        let (local_end, left) =
          pump_down hmac a ts (record { bytes = sent.written; closing = e }) idle_side in
        let answered = pump_up hmac a rs' idle_side in
        let (user_end, left') =
          pump_verified hmac a ts' (record { bytes = answered.written; closing = e' }) idle in
        (local_end.written ≡ chunks rs)
        × (user_end.written ≡ chunks rs')
        × ((left.bytes ≡ []) × (left'.bytes ≡ []))
        × ((sent.stopped ≡ none)
            × (local_end.stopped ≡ none)
            × (answered.stopped ≡ none)
            × (user_end.stopped ≡ none))
        × ((sent.counter ≡ local_end.counter) × (answered.counter ≡ user_end.counter))
  stream rs rs' ts ts' e e' f k f' k' =
      let (w, l, g, _, c, _, n) = end_to_end hmac a rs ts e f k in
      let (w', l', g', _, c', _, n') = end_to_end hmac a rs' ts' e' f' k' in
      let sent = pump_signed hmac a rs idle in
      let down = pump_down-side_of ts (record { bytes = sent.written; closing = e }) idle in
      let up = pump_up-side_of rs' idle in
      (
        ap (λ (x : Side × Conn). x.0.written) down ∙ w,
        ap
              (λ (x : Side).
                (pump_verified hmac a ts' (record { bytes = x.written; closing = e' })
                  idle).0.written)
              up
            ∙ w',
        (
          ap (λ (x : Side × Conn). x.1.bytes) down ∙ l,
          ap
                (λ (x : Side).
                  (pump_verified hmac a ts' (record { bytes = x.written; closing = e' })
                    idle).1.bytes)
                up
              ∙ l',
        ),
        (
          n,
          ap (λ (x : Side × Conn). x.0.stopped) down ∙ g,
          ap (λ (x : Side). x.stopped) up ∙ n',
          ap
                (λ (x : Side).
                  (pump_verified hmac a ts' (record { bytes = x.written; closing = e' })
                    idle).0.stopped)
                up
              ∙ g',
        ),
        (
          c ∙ ap (λ (x : Side × Conn). x.0.counter) (sym down),
          ap (λ (x : Side). x.counter) up
              ∙ c'
              ∙ ap
                  (λ (x : Side).
                    (pump_verified hmac a ts' (record { bytes = x.written; closing = e' })
                      idle).0.counter)
                  (sym up),
        ),
      )
