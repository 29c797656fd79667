-- ===== src/Auth/Packet.antt =====
-- Signed packets, the form of the UDP data channel: what Verify accepts.
use nexus_link.Base.{ℕ, ◌+◌, ◌^◌, ◌≤◌, ◌<◌, ◌≡◌, sym, ◌∙◌}
use nexus_link.Base.{false, some, List, ◌++◌, arith}
use nexus_link.Base.{Eq-nat, Eq-string, Eq-bytes, bytes_eq_refl, bytes_eq_iff}
use nexus_link.Base.{
  length, take, drop, All, length-append, length-take, length-drop, take-append, drop-append,
  All-take, All-drop, drop-drop, split_three,
}
use nexus_link.Base.Word.{u64}
use nexus_link.Wire.Endian.{
  to_be, of_be, IsByte, length-to_be, of_be-to_be8, to_be-of_be8, of_be8-lt,
}
use nexus_link.Auth.Sign.{Hmac, Auth, timestamp_size, out_of_window, sign, verify}

-- `t` lies at most 300 seconds from `now`.
abbrev pub IsFresh : ℕ → ℕ → Type 0
IsFresh now t = (now ≤ t + 300) × (t ≤ now + 300) × (t < 2 ^ 64)

-- a clock for which the bounds of the window do not wrap
abbrev pub IsClock : ℕ → Type 0
IsClock now = (300 ≤ now) × (now + 300 < 2 ^ 64)

pub out_of_window-IsFresh :
    (now t : ℕ) → IsClock now → IsFresh now t → out_of_window (u64 now) t ≡ false
unfolding out_of_window
out_of_window-IsFresh now t h k = ground arith

pub IsFresh-out_of_window :
    (now t : ℕ) → IsClock now → t < 2 ^ 64 → out_of_window (u64 now) t ≡ false → IsFresh now t
unfolding out_of_window
IsFresh-out_of_window now t h k e = ground arith

module _ (hmac : Hmac) where
  module _ (a : Auth) (t : ℕ) (p : List ℕ) where
    abbrev pub ts : List ℕ
    ts = to_be timestamp_size (u64 t)

    abbrev pub sig : List ℕ
    sig = hmac.mac a.secret (ts ++ p)

    pub signature_part : take 32 (sign hmac a t p) ≡ sig
    unfolding sign
    signature_part = take-append 32 sig (ts ++ p) (sym (hmac.length-mac a.secret (ts ++ p)))

    rest_part : drop 32 (sign hmac a t p) ≡ ts ++ p
    unfolding sign
    rest_part = drop-append 32 sig (ts ++ p) (sym (hmac.length-mac a.secret (ts ++ p)))

    time_part : take 8 (drop 32 (sign hmac a t p)) ≡ ts
    time_part = rw rest_part (take-append 8 ts p (sym (length-to_be 8 (u64 t))))

    payload_part : drop 40 (sign hmac a t p) ≡ p
    payload_part =
        sym (drop-drop 32 8 (sign hmac a t p))
        ∙ rw rest_part (drop-append 8 ts p (sym (length-to_be 8 (u64 t))))

    pub length-sign : length (sign hmac a t p) ≡ 40 + length p
    unfolding sign
    length-sign = omega (
      arith,
      length-append sig (ts ++ p),
      length-append ts p,
      hmac.length-mac a.secret (ts ++ p),
      length-to_be 8 (u64 t),
    )

  -- A packet signed at `t` is accepted at any time within 300 seconds of `t`, with its payload.
  pub verify-sign :
      (a : Auth) (now t : ℕ) (p : List ℕ)
      → IsClock now
      → IsFresh now t
      → verify hmac a now (sign hmac a t p) ≡ some p
  unfolding verify
  verify-sign a now t p h k =
      rw (signature_part a t p, time_part a t p, payload_part a t p, length-sign a t p)
        (ground (
          arith,
          of_be-to_be8 (u64 t),
          out_of_window-IsFresh now t h k,
          bytes_eq_refl (hmac.mac a.secret (to_be 8 (u64 t) ++ p)),
        ))

  -- what the checks of `verify` establish, in their order
  verify_checks :
      (a : Auth) (now : ℕ) (s p : List ℕ)
      → verify hmac a now s ≡ some p
      → let ts = take 8 (drop 32 s) in
        (40 ≤ length s)
        × (out_of_window (u64 now) (of_be ts) ≡ false)
        × (take 32 s ≡ hmac.mac a.secret (ts ++ drop 40 s))
        × (drop 40 s ≡ p)
  unfolding verify
  verify_checks a now s p e =
      ground (arith, bytes_eq_iff (take 32 s) (hmac.mac a.secret (take 8 (drop 32 s) ++ drop 40 s)))

  length_time : (s : List ℕ) → 40 ≤ length s → length (take 8 (drop 32 s)) ≡ 8
  length_time s h = omega (arith, length-take 8 (drop 32 s), length-drop 32 s)

  -- Every packet of bytes that is accepted is the one that Sign makes, under the secret, of the
  -- payload that is returned, at a time within 300 seconds of now.
  pub verify_exact :
      (a : Auth) (now : ℕ) (s p : List ℕ)
      → IsClock now
      → All IsByte s
      → verify hmac a now s ≡ some p
      → (t : ℕ) × IsFresh now t × (s ≡ sign hmac a t p)
  unfolding sign
  verify_exact a now s p h bs e =
      let (n, w, m, q) = verify_checks a now s p e in
      let ts : List ℕ = take 8 (drop 32 s) in
      let tb = All-take IsByte 8 (drop 32 s) (All-drop IsByte 32 s bs) in
      let tl = length_time s n in
      let fresh = IsFresh-out_of_window now (of_be ts) h (of_be8-lt ts tb tl) w in
      let back = to_be-of_be8 ts tb tl in
      let small : u64 (of_be ts) ≡ of_be ts = omega arith in
      (of_be ts, fresh, cc (split_three 32 8 s, small))
