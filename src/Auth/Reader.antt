-- ===== src/Auth/Reader.antt =====
-- ReadFramed: one signed frame off a TCP stream.
use nexus_link.Base.{ℕ, ◌+◌, ◌^◌, ◌≤◌, ◌<◌, ◌≡◌, refl, sym, ap, ◌∙◌}
use nexus_link.Base.{true, Option, none, some, List, [], ◌∷◌, ◌++◌, arith, leb}
use nexus_link.Base.{Eq-nat, Eq-string, Eq-bytes}
use nexus_link.Base.{
  length, take, drop, All, length-append, take-append-drop, length-take, length-drop, take-append,
  All-append, All-front, All-back, All-take, All-drop,
}
use nexus_link.Base.Word.{u32, u64}
use nexus_link.Wire.Endian.{to_be, of_be, IsByte, length-to_be, to_be-of_be4, of_be4-lt}
use nexus_link.Wire.Stream.{
  Error, unexpected_eof, ok, >>=-eq-ok, guard, Conn, read_full, read_full-append, read_full_ok,
}
use mathlib.Core.List.{append_assoc, append-nil}
use mathlib.Core.Path.{subst}
use nexus_link.Auth.Sign.{
  Hmac, Auth, max_framed, sign, verify, sign_framed, verify_framed, read_payload, accept,
  read_framed,
}
use nexus_link.Auth.Packet.{IsFresh, IsClock, verify_exact, ts, sig, length-sign}
use nexus_link.Auth.Framed.{declared, verify_framed-verify, verify_framed-sign_framed}

read_payload-append :
    (p rest : List ℕ) (e : Error)
    → read_payload (length p) (record { bytes = p ++ rest; closing = e })
      ≡ ok (p, record { bytes = rest; closing = e })
unfolding read_payload
read_payload-append [] rest e = refl
read_payload-append (x ∷ p) rest e =
    ground (arith, read_full-append (length (x ∷ p)) (x ∷ p) rest e)

read_payload_ok :
    (n : ℕ) (c : Conn) {p : List ℕ} {d : Conn}
    → read_payload n c ≡ ok (p, d)
    → (c.bytes ≡ p ++ d.bytes) × (length p ≡ n) × (d.closing ≡ c.closing)
unfolding read_payload
read_payload_ok n c {p} {d} h = ground (arith, read_full_ok n c {xs = p} {d = d})

accept_ok :
    (o : Option (List ℕ)) (c : Conn) {p : List ℕ} {d : Conn}
    → accept o c ≡ ok (p, d)
    → (o ≡ some p) × (c ≡ d)
unfolding accept
accept_ok none c h = cc
accept_ok (some q) c h = (cc, cc)

guard-leb : (n : ℕ) (u : Unit {0}) → guard (leb n max_framed) unexpected_eof ≡ ok u → n ≤ max_framed
guard-leb n u h = ground arith

module _ (hmac : Hmac) (a : Auth) where
  -- the first 44 bytes of a frame
  abbrev front : ℕ → List ℕ → List ℕ
  front t p = to_be 4 (u32 (length p)) ++ (sig hmac a t p ++ ts hmac a t p)

  front-append :
      (t : ℕ) (p rest : List ℕ) → sign_framed hmac a t p ++ rest ≡ front t p ++ (p ++ rest)
  unfolding sign_framed
  front-append t p rest = simp append_assoc

  length-front : (t : ℕ) (p : List ℕ) → length (front t p) ≡ 44
  length-front t p = omega (
    arith,
    length-append (to_be 4 (u32 (length p))) (sig hmac a t p ++ ts hmac a t p),
    length-append (sig hmac a t p) (ts hmac a t p),
    length-to_be 4 (u32 (length p)),
    length-to_be 8 (u64 t),
    hmac.length-mac a.secret (ts hmac a t p ++ p),
  )

  declared-front : (t : ℕ) (p : List ℕ) → length p < 2 ^ 32 → declared (front t p) ≡ length p
  unfolding to_be of_be
  declared-front t p h = omega arith

  verify_front :
      (now t : ℕ) (p : List ℕ)
      → IsClock now
      → IsFresh now t
      → length p < 2 ^ 32
      → verify_framed hmac a now (front t p ++ p) ≡ some p
  verify_front now t p h k l =
      let e : front t p ++ p ≡ sign_framed hmac a t p ++ [] =
        ap (λ (x : List ℕ). front t p ++ x) (sym (append-nil p)) ∙ sym (front-append t p []) in
      rw e (verify_framed-sign_framed hmac a now t p [] h k l)

  -- A frame of at most 16 MB, signed within 300 seconds, is read off the stream as its payload, and
  -- the reader stops exactly behind it.
  pub read_framed-sign_framed :
      (now t : ℕ) (p rest : List ℕ) (e : Error)
      → IsClock now
      → IsFresh now t
      → length p ≤ max_framed
      → read_framed hmac a now (record { bytes = sign_framed hmac a t p ++ rest; closing = e })
        ≡ ok (p, record { bytes = rest; closing = e })
  unfolding read_framed
  read_framed-sign_framed now t p rest e h k l = rw (front-append t p rest) (
      rw (read_full-append 44 (front t p) (p ++ rest) e (sym (length-front t p))) (
        rw (declared-front t p (omega arith)) (
          rw (within (length p) l)
            (rw (read_payload-append p rest e) (rw (verify_front now t p h k (omega arith)))))))
    where
      within : (n : ℕ) → n ≤ max_framed → leb n max_framed ≡ true
      within n x = ground arith

  -- what stands behind the prefix, when the frame is exactly as long as it declares
  whole_frame :
      (now n : ℕ) (h q p : List ℕ)
      → length h ≡ 44
      → declared h ≡ n
      → length q ≡ n
      → verify_framed hmac a now (h ++ q) ≡ some p
      → verify hmac a now (drop 4 h ++ q) ≡ some p
  whole_frame now n h q p lh dn lq e =
      let total : length (h ++ q) ≡ 44 + n = omega (arith, length-append h q) in
      let part : length (drop 4 h ++ q) ≡ 40 + n =
        omega (arith, length-append (drop 4 h) q, length-drop 4 h) in
      let dec : declared (h ++ q) ≡ n = declared_of h q lh ∙ dn in
      let all : take (40 + n) (drop 4 h ++ q) ≡ drop 4 h ++ q =
        ap (λ (x : List ℕ). take (40 + n) x) (sym (append-nil (drop 4 h ++ q)))
        ∙ take-append (40 + n) (drop 4 h ++ q) [] (sym part) in
      rw (verify_framed-verify hmac a now (h ++ q), dec, total, fits n, drop_of h q lh, all) at e
    where
      fits : (n : ℕ) → leb (44 + n) (44 + n) ≡ true
      fits n = ground arith

      declared_of : (h q : List ℕ) → length h ≡ 44 → declared (h ++ q) ≡ declared h
      declared_of (x0 ∷ x1 ∷ x2 ∷ x3 ∷ r) q l = refl
      declared_of h q l = absurd (omega arith)

      drop_of : (h q : List ℕ) → length h ≡ 44 → drop 4 (h ++ q) ≡ drop 4 h ++ q
      drop_of (x0 ∷ x1 ∷ x2 ∷ x3 ∷ r) q l = refl
      drop_of h q l = absurd (omega arith)

  -- a stream that starts with the frame of `p`, signed within 300 seconds
  abbrev pub StartsSigned : ℕ → Conn → List ℕ → Conn → Type 0
  StartsSigned now c p d =
      (t : ℕ) × IsFresh now t
      × (length p ≤ max_framed)
      × (c.bytes ≡ sign_framed hmac a t p ++ d.bytes)
      × (d.closing ≡ c.closing)

  -- a header and a payload that hold the packet of `p` are its frame
  frame_of_parts :
      (t : ℕ) (h q p : List ℕ)
      → All IsByte h
      → length h ≡ 44
      → length q ≡ declared h
      → drop 4 h ++ q ≡ sign hmac a t p
      → (h ++ q ≡ sign_framed hmac a t p) × (declared h ≡ length p)
  unfolding sign_framed sign
  frame_of_parts t h q p hb lh lq e =
      let size : declared h ≡ length p = omega (
        arith,
        ap {A = List ℕ} (λ x. length x) e,
        length-sign hmac a t p,
        length-append (drop 4 h) q,
        length-drop 4 h,
      ) in
      let four : length (take 4 h) ≡ 4 = omega (arith, length-take 4 h) in
      let prefix = to_be-of_be4 (take 4 h) (All-take IsByte 4 h hb) four in
      let bound = of_be4-lt (take 4 h) (All-take IsByte 4 h hb) four in
      let word : u32 (length p) ≡ of_be (take 4 h) = omega arith in
      let split : h ++ q ≡ take 4 h ++ (drop 4 h ++ q) =
        ap (λ (x : List ℕ). x ++ q) (sym (take-append-drop 4 h))
        ∙ append_assoc (take 4 h) (drop 4 h) q in
      (cc (split, e, prefix, word), size)

  read_steps :
      (now : ℕ) (c c1 d : Conn) (h q p : List ℕ)
      → IsClock now
      → All IsByte c.bytes
      → read_full 44 c ≡ ok (h, c1)
      → declared h ≤ max_framed
      → read_payload (declared h) c1 ≡ ok (q, d)
      → verify_framed hmac a now (h ++ q) ≡ some p
      → StartsSigned now c p d
  read_steps now c c1 d h q p clock bs e1 m e2 e3 =
      let (f1, f2, f3) = read_full_ok 44 c e1 in
      let (g1, g2, g3) = read_payload_ok (declared h) c1 e2 in
      let hb = All-front IsByte h c1.bytes (subst (All IsByte) f1 bs) in
      let qb =
        All-front IsByte q d.bytes
          (subst (All IsByte) g1 (All-back IsByte h c1.bytes (subst (All IsByte) f1 bs))) in
      let packet = All-append IsByte (drop 4 h) q (All-drop IsByte 4 h hb) qb in
      let checked = whole_frame now (declared h) h q p f2 refl g2 e3 in
      let (t, fresh, es) = verify_exact hmac a now (drop 4 h ++ q) p clock packet checked in
      let (whole, size) = frame_of_parts t h q p hb f2 g2 es in
      (
        t,
        fresh,
        omega arith,
        f1
            ∙ ap (λ (x : List ℕ). h ++ x) g1
            ∙ sym (append_assoc h q d.bytes)
            ∙ ap (λ (x : List ℕ). x ++ d.bytes) whole,
        g3 ∙ f3,
      )

  -- Whatever bytes the stream holds, a payload that is returned came in exactly the frame that
  -- SignFramed makes of it under the secret at a time within 300 seconds of now; it has at most 16
  -- MB, and exactly that frame was taken off the stream.
  pub read_framed_exact :
      (now : ℕ) (c d : Conn) (p : List ℕ)
      → IsClock now
      → All IsByte c.bytes
      → read_framed hmac a now c ≡ ok (p, d)
      → StartsSigned now c p d
  unfolding read_framed
  read_framed_exact now c d p clock bs e =
      let (x, e1, r1) = >>=-eq-ok (read_full 44 c) _ e in
      let (u, e2, r2) = >>=-eq-ok (guard (leb (declared x.0) max_framed) unexpected_eof) _ r1 in
      let (y, e3, r3) = >>=-eq-ok (read_payload (declared x.0) x.1) _ r2 in
      let (e4, e5) = accept_ok (verify_framed hmac a now (x.0 ++ y.0)) y.1 r3 in
      subst (λ (z : Conn). StartsSigned now c p z) e5
        (read_steps now c x.1 y.1 x.0 y.0 p clock bs e1 (guard-leb (declared x.0) u e2) e3 e4)
