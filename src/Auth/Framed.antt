-- ===== src/Auth/Framed.antt =====
-- Framed packets, the form of the TCP data channel: what VerifyFramed and ReadFramed accept.
use nexus_link.Base.{ℕ, ◌+◌, ◌-◌, ◌^◌, ◌≤◌, ◌<◌, ◌≡◌, refl, sym, ◌∙◌, inl, inr}
use nexus_link.Base.{
  true, false, Option, none, some, List, ◌++◌, arith, ltb, leb, if◌then◌else◌, leb→le,
}
use nexus_link.Base.{Bool-cases, Eq-nat, Eq-string, Eq-bytes}
use nexus_link.Base.{
  length, take, drop, slice, length-append, length-take, length-drop, take-append, drop-drop,
  take-take, drop-take,
}
use nexus_link.Wire.Endian.{to_be, of_be}
use Prim.Native.Nat.{min}
use nexus_link.Auth.Sign.{
  Hmac, Auth, header_size, frame_header_size, length_prefix_size, sign, verify, sign_framed,
  verify_framed,
}
use nexus_link.Auth.Packet.{IsFresh, IsClock, verify-sign, length-sign}

-- the length that a frame declares
abbrev pub declared : List ℕ → ℕ
declared fr = of_be (take length_prefix_size fr)

time_of_take : (n : ℕ) (ys : List ℕ) → take 8 (drop 32 (take (40 + n) ys)) ≡ take 8 (drop 32 ys)
time_of_take n ys =
    let e : 40 + n ≡ 32 + (8 + n) = omega arith in
    rw (e, drop-take 32 (8 + n) ys) (take-take 8 (8 + n) (drop 32 ys) (omega arith))

-- the slice of the payload, as the code writes its bounds
payload_slice : (n : ℕ) (fr : List ℕ) → slice 44 (44 + n) fr ≡ drop 40 (take (40 + n) (drop 4 fr))
payload_slice n fr =
    let e : 44 + n - 44 ≡ n = omega arith in rw (e, drop-take 40 n (drop 4 fr), drop-drop 4 40 fr)

long_enough : (l n : ℕ) → leb (44 + n) l ≡ true → (ltb l 44 ≡ false) × (ltb (l - 44) n ≡ false)
long_enough l n h = (ground arith, ground arith)

too_short :
    {A : Type 0} (l n : ℕ) (x : Option A)
    → leb (44 + n) l ≡ false
    → (if ltb l 44 then none else if ltb (l - 44) n then none else x) ≡ none
too_short l n x h = ground arith

length_declared :
    (n : ℕ) (fr : List ℕ)
    → leb (44 + n) (length fr) ≡ true
    → ltb (length (take (40 + n) (drop 4 fr))) 40 ≡ false
length_declared n fr h =
    rw (length-take (40 + n) (drop 4 fr), length-drop 4 fr)
      (let k = leb→le (44 + n) (length fr) h in
        short_min (40 + n) (length fr) (omega arith) (omega arith))
  where
    short_min : (m l : ℕ) → 40 ≤ m → 4 + m ≤ l → ltb (min m (l - 4)) 40 ≡ false
    short_min m l h k = ground arith

longer_than : (n m : ℕ) → leb (44 + n) (44 + n + m) ≡ true
longer_than n m = ground arith

module _ (hmac : Hmac) where
  -- VerifyFramed on a frame that is long enough is Verify on the part that the prefix declares, and
  -- on any other frame it fails.
  pub verify_framed-verify :
      (a : Auth) (now : ℕ) (fr : List ℕ)
      → verify_framed hmac a now fr ≡ (
          if leb (frame_header_size + declared fr) (length fr)
          then verify hmac a now (take (header_size + declared fr) (drop length_prefix_size fr))
          else none)
  unfolding verify_framed verify
  verify_framed-verify a now fr = elim (Bool-cases (leb (44 + declared fr) (length fr))) [
    | inl h ↦
        let (t1, t2) = long_enough (length fr) (declared fr) h in
        let t3 = length_declared (declared fr) fr h in
        rw (
          h,
          t1,
          t2,
          t3,
          payload_slice (declared fr) fr,
          take-take 32 (40 + declared fr) (drop 4 fr) (omega arith),
          time_of_take (declared fr) (drop 4 fr),
          drop-drop 4 32 fr,
        )
    | inr h ↦ rw h (too_short (length fr) (declared fr) _ h)
  ]

  pub declared-sign_framed :
      (a : Auth) (t : ℕ) (p rest : List ℕ)
      → length p < 2 ^ 32
      → declared (sign_framed hmac a t p ++ rest) ≡ length p
  unfolding sign_framed to_be
  declared-sign_framed a t p rest h = unfold of_be in omega arith

  -- the prefix stands in front of the packet that Sign makes
  pub drop-sign_framed :
      (a : Auth) (t : ℕ) (p rest : List ℕ)
      → drop 4 (sign_framed hmac a t p ++ rest) ≡ sign hmac a t p ++ rest
  unfolding sign_framed sign to_be
  drop-sign_framed a t p rest = refl

  pub length-sign_framed :
      (a : Auth) (t : ℕ) (p : List ℕ) → length (sign_framed hmac a t p) ≡ 44 + length p
  unfolding sign_framed sign to_be
  length-sign_framed a t p = omega (arith, length-sign hmac a t p)

  -- A frame signed at `t` is accepted at any time within 300 seconds, with its payload and without
  -- what follows it in the buffer.
  pub verify_framed-sign_framed :
      (a : Auth) (now t : ℕ) (p rest : List ℕ)
      → IsClock now
      → IsFresh now t
      → length p < 2 ^ 32
      → verify_framed hmac a now (sign_framed hmac a t p ++ rest) ≡ some p
  verify_framed-sign_framed a now t p rest h k l =
      let fits = longer_than (length p) (length rest) in
      verify_framed-verify a now (sign_framed hmac a t p ++ rest)
      ∙ rw
          (
            declared-sign_framed a t p rest l,
            drop-sign_framed a t p rest,
            length-append (sign_framed hmac a t p) rest,
            length-sign_framed a t p,
            fits,
            take-append (40 + length p) (sign hmac a t p) rest (sym (length-sign hmac a t p)),
          )
          (verify-sign hmac a now t p h k)
