-- ===== src/Protocol/Framing.antt =====
-- What ReadMessage makes of what WriteMessage sends, and of anything else.
use nexus_link.Base.{ℕ, ◌^◌, ◌≤◌, ◌<◌, ◌≡◌, refl, sym, ◌∙◌}
use nexus_link.Base.{List, [], ◌∷◌, ◌++◌, arith}
use nexus_link.Base.{Eq-nat, Eq-string, Eq-bytes}
use nexus_link.Base.{length, All, All-front}
use nexus_link.Wire.Endian.{to_be, of_be, IsByte}
use nexus_link.Wire.Stream.{
  Error, too_large, ok, err, >>=-eq-ok, ok-injective, Conn, read_full, read_full-append,
  read_full_ok,
}
use mathlib.Core.List.{append_assoc}
use mathlib.Core.Path.{subst}
use nexus_link.Protocol.Message.{
  header_size, max_message_size, max_valid_type, Message, header, frame, check_header, read_body,
  read_message,
}

-- A type byte that the reader accepts.
abbrev pub IsType : ℕ → Type 0
IsType t = (0 < t) × (t ≤ max_valid_type)

length-header : (t : ℕ) (p : List ℕ) → length (header t p) ≡ header_size
unfolding header to_be
length-header t p = omega arith

check_header-header :
    (t : ℕ) (p : List ℕ)
    → IsType t
    → length p ≤ max_message_size
    → check_header (header t p) ≡ ok (t, length p)
unfolding check_header header to_be of_be
check_header-header t p h k = ground arith

check_header-oversize :
    (t : ℕ) (p : List ℕ)
    → IsType t
    → max_message_size < length p
    → length p < 2 ^ 32
    → check_header (header t p) ≡ err (too_large (length p))
unfolding check_header header to_be of_be
check_header-oversize t p h k fits = ground arith

read_body-append :
    (p rest : List ℕ) (e : Error)
    → read_body (length p) (record { bytes = p ++ rest; closing = e })
      ≡ ok (p, record { bytes = rest; closing = e })
unfolding read_body
read_body-append [] rest e = refl
read_body-append (x ∷ p) rest e = ground (arith, read_full-append (length (x ∷ p)) (x ∷ p) rest e)

-- A frame written for a valid type and a payload of at most 10 MB is read back as that type and that
-- payload, and the reader stops exactly behind it, whatever follows and however the stream ends.
pub read_message-frame :
    (t : ℕ) (p rest : List ℕ) (e : Error)
    → IsType t
    → length p ≤ max_message_size
    → read_message (record { bytes = frame t p ++ rest; closing = e })
      ≡ ok (record { type = t; body = p }, record { bytes = rest; closing = e })
unfolding read_message frame
read_message-frame t p rest e h k = rw (append_assoc (header t p) p rest) (
    rw (read_full-append header_size (header t p) (p ++ rest) e (sym (length-header t p)))
      (rw (check_header-header t p h k) (rw (read_body-append p rest e))))

-- A payload of more than 10 MB, which WriteMessage sends without complaint (below 4 GB), is always
-- refused by the reader, whatever stands behind the header.
pub read_message-oversize :
    (t : ℕ) (p rest : List ℕ) (e : Error)
    → IsType t
    → max_message_size < length p
    → length p < 2 ^ 32
    → read_message (record { bytes = frame t p ++ rest; closing = e }) ≡ err (too_large (length p))
unfolding read_message frame
read_message-oversize t p rest e h k fits = rw (append_assoc (header t p) p rest) (
    rw (read_full-append header_size (header t p) (p ++ rest) e (sym (length-header t p)))
      (rw (check_header-oversize t p h k fits)))

-- The header that passes the checks is the one that the writer makes.
check_header_exact :
    (h : List ℕ) (t : ℕ) (p : List ℕ)
    → All IsByte h
    → length h ≡ header_size
    → check_header h ≡ ok (t, length p)
    → (h ≡ header t p) × IsType t × (length p ≤ max_message_size)
unfolding check_header header of_be to_be
check_header_exact (a ∷ b ∷ c ∷ d ∷ i ∷ j ∷ k ∷ l ∷ []) t p bs n e = ground arith
check_header_exact xs t p bs n e = absurd (omega arith)

read_body_ok :
    (n : ℕ) (c : Conn) {p : List ℕ} {d : Conn}
    → read_body n c ≡ ok (p, d)
    → (c.bytes ≡ p ++ d.bytes) × (length p ≡ n) × (d.closing ≡ c.closing)
unfolding read_body
read_body_ok n c {p} {d} h = ground (arith, read_full_ok n c {xs = p} {d = d})

-- The stream `c` is the frame of `m` followed by the stream `d`, and `m` is within the limits.
abbrev pub Exact : Conn → Conn → Message → Type 0
Exact c d m =
    (c.bytes ≡ frame m.type m.body ++ d.bytes)
    × (d.closing ≡ c.closing)
    × IsType m.type
    × (length m.body ≤ max_message_size)

read_steps :
    (c c1 c2 : Conn) (h p : List ℕ) (t n : ℕ)
    → All IsByte c.bytes
    → read_full header_size c ≡ ok (h, c1)
    → check_header h ≡ ok (t, n)
    → read_body n c1 ≡ ok (p, c2)
    → Exact c c2 (record { type = t; body = p })
unfolding frame
read_steps c c1 c2 h p t n bs e1 e2 e3 =
    let (f1, f2, f3) = read_full_ok header_size c e1 in
    let (g1, g2, g3) = read_body_ok n c1 e3 in
    let front = All-front IsByte h c1.bytes (subst (All IsByte) f1 bs) in
    let (k1, k2, k3) = check_header_exact h t p front f2 (rw g2 e2) in
    (rw f1 (rw g1 (rw k1 (sym (append_assoc (header t p) p c2.bytes)))), g3 ∙ f3, k2, k3)

-- Whatever stream is read successfully, the reader has taken exactly the frame of the message that it
-- returns, and the message has a valid type and at most 10 MB.
pub read_message-Exact :
    (c d : Conn) (m : Message) → All IsByte c.bytes → read_message c ≡ ok (m, d) → Exact c d m
unfolding read_message
read_message-Exact c d m bs e =
    let (a, e1, r1) = >>=-eq-ok (read_full header_size c) _ e in
    let (b, e2, r2) = >>=-eq-ok (check_header a.0) _ r1 in
    let (x, e3, r3) = >>=-eq-ok (read_body b.1 a.1) _ r2 in
    subst (λ (y : Message × Conn). Exact c y.1 y.0) (ok-injective r3)
      (read_steps c a.1 x.1 a.0 x.0 b.0 b.1 bs e1 e2 e3)
