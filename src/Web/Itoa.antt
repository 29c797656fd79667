-- ===== src/Web/Itoa.antt =====
-- pkg/web/server.go: itoa, into a buffer of 20 bytes. A text is its bytes.
use nexus_link.Base.{
  ℕ, zero, suc, ◌+◌, ◌-◌, ◌*◌, ◌/◌, ◌%◌, ◌^◌, ◌≤◌, ◌<◌, ◌≡◌, refl, sym, ap, ◌∙◌, inl, inr,
}
use nexus_link.Base.{Option, none, some, List, [], ◌∷◌, arith, nat_eq, if◌then◌else◌, nat_eq_iff}
use nexus_link.Base.{Bool-cases, Eq-nat, Eq-string, Eq-bytes, Eq-pair}
use nexus_link.Base.{length, All}

-- the loop, with the room that is left in front of what is written; `none` is an index below 0
unfoldable pub itoa_loop : ℕ → ℕ → List ℕ → Option (List ℕ)
itoa_loop zero n acc = if nat_eq n 0 then some acc else none
itoa_loop (suc room) n acc =
    let rest = itoa_loop room (n / 10) ((n % 10 + b'0') ∷ acc) in
    if nat_eq n 0 then some acc else rest

unfoldable pub itoa : ℕ → Option (List ℕ)
itoa n = if nat_eq n 0 then some (b'0' ∷ []) else itoa_loop 20 n []

-- the number that digits stand for, after others
unfoldable pub number_from : ℕ → List ℕ → ℕ
number_from n [] = n
number_from n (d ∷ ds) = number_from (10 * n + (d - b'0')) ds

abbrev pub IsDigit : ℕ → Type 0
IsDigit d = (48 ≤ d) × (d < 58)

tenth : (n m : ℕ) → n < 10 * m → n / 10 < m
tenth n m h = omega (arith, h)

not_empty : (ds : List ℕ) (n : ℕ) → number_from 0 ds ≡ n → 0 < n → 0 < length ds
unfolding number_from
not_empty [] n h p = absurd (omega (arith, h))
not_empty (d ∷ ds) n h p = omega arith

itoa_loop-zero : (room n : ℕ) (acc : List ℕ) → n ≡ 0 → itoa_loop room n acc ≡ some acc
unfolding itoa_loop
itoa_loop-zero zero n acc z = rw z refl
itoa_loop-zero (suc room) n acc z = let q = (nat_eq_iff n 0).1 z in rw (q, itoa_loop) refl

-- with room for the `k` digits that a number has at most
itoa_loop_returns :
    (room k n : ℕ) (acc : List ℕ)
    → k ≤ room
    → n < 10 ^ k
    → All IsDigit acc
    → (ds : List ℕ) × (itoa_loop room n acc ≡ some ds)
      × (number_from 0 ds ≡ number_from n acc)
      × (length ds ≤ k + length acc)
      × All IsDigit ds
unfolding itoa_loop number_from
itoa_loop_returns room zero n acc r h d =
    let z : n ≡ 0 = omega (arith, h) in
    (acc, itoa_loop-zero room n acc z, ap (λ k. number_from k acc) (sym z), omega arith, d)
itoa_loop_returns zero (suc k) n acc r h d = absurd (omega (arith, r))
itoa_loop_returns (suc room) (suc k) n acc r h d = elim (Bool-cases (nat_eq n 0)) [
  | inl q ↦
      let z : n ≡ 0 = (nat_eq_iff n 0).0 q in
      (acc, itoa_loop-zero (suc room) n acc z, ap (λ k. number_from k acc) (sym z), omega arith, d)
  | inr q ↦
      let less : n / 10 < 10 ^ k = tenth n (10 ^ k) (omega (arith, h)) in
      let (ds, e, v, l, a) =
        itoa_loop_returns room k (n / 10) ((n % 10 + b'0') ∷ acc) (omega (arith, r)) less
          ((omega arith, omega arith), d) in
      let whole : 10 * (n / 10) + (n % 10 + 48 - 48) ≡ n = omega arith in
      (ds, rw (q, itoa_loop) e, v ∙ ap (λ k. number_from k acc) whole, omega (arith, l), a)
]

-- For every number below 2 ^ 63 the loop of itoa ends before its buffer of 20 bytes is full, and
-- what it returns are 1 to 19 digits that stand for the number.
pub itoa_returns :
    (n : ℕ)
    → n < 2 ^ 63
    → (ds : List ℕ) × (itoa n ≡ some ds)
      × (number_from 0 ds ≡ n)
      × (0 < length ds)
      × (length ds ≤ 19)
      × All IsDigit ds
unfolding itoa number_from
itoa_returns n h = elim (Bool-cases (nat_eq n 0)) [
  | inl q ↦
      let z : n ≡ 0 = (nat_eq_iff n 0).0 q in
      (
        b'0' ∷ [],
        rw (q, itoa) refl,
        sym z,
        omega arith,
        omega arith,
        ((omega arith, omega arith), tt),
      )
  | inr q ↦
      let (ds, e, v, l, a) = itoa_loop_returns 20 19 n [] (omega arith) (omega (arith, h)) tt in
      (ds, rw (q, itoa) e, v, not_empty ds n v (ground (arith, q)), omega (arith, l), a)
]
