-- ===== src/Udp/SessionId.antt =====
-- Session ids are distinct for distinct sequence numbers.
use nexus_link.Base.{ℕ, zero, suc, ◌/◌, ◌%◌, ◌^◌, ◌<◌, ◌≡◌, sym, ap, ◌∙◌, inl, inr}
use nexus_link.Base.{arith, nat_eq, nat_eq_iff}
use nexus_link.Base.{Bool-cases, Eq-nat, Eq-string, Eq-bytes}
use nexus_link.Udp.Channel.{hex_digit, to_hex, session_id}

hex_digit-injective : (a b : ℕ) → a < 16 → b < 16 → hex_digit a ≡ hex_digit b → a ≡ b
unfolding hex_digit
hex_digit-injective a b ha hb h = ground arith

-- equal texts have equal digits
same_digit :
    (k n m : ℕ) → to_hex k n ≡ to_hex k m → (i : ℕ) → i < k → n / 16 ^ i % 16 ≡ m / 16 ^ i % 16
unfolding to_hex
same_digit zero n m h i hi = omega arith
same_digit (suc k) n m h i hi =
    let first : n / 16 ^ k % 16 ≡ m / 16 ^ k % 16 =
      hex_digit-injective _ _ (omega arith) (omega arith) (cc) in
    elim (Bool-cases (nat_eq i k)) [
      | inl e ↦ rw ((nat_eq_iff i k).0 e) first
      | inr e ↦ same_digit k n m (cc) i (ground arith)
    ]

low_digits :
    (n m : ℕ)
    → n % 16 ≡ m % 16
    → n / 16 % 16 ≡ m / 16 % 16
    → n / 256 % 16 ≡ m / 256 % 16
    → n / 4096 % 16 ≡ m / 4096 % 16
    → n % 65536 ≡ m % 65536
low_digits n m a b c d = omega arith

-- digit i of n / q is digit i + 4 of n
shift_digit :
    (q p r : ℕ) (n m : ℕ)
    → n / r % 16 ≡ m / r % 16
    → n / q / p ≡ n / r
    → m / q / p ≡ m / r
    → n / q / p % 16 ≡ m / q / p % 16
shift_digit q p r n m h a b = ap (λ x. x % 16) a ∙ h ∙ sym (ap (λ x. x % 16) b)

four_parts :
    (n m : ℕ)
    → n < 2 ^ 64
    → m < 2 ^ 64
    → n % 65536 ≡ m % 65536
    → n / 65536 % 65536 ≡ m / 65536 % 65536
    → n / 4294967296 % 65536 ≡ m / 4294967296 % 65536
    → n / 281474976710656 % 65536 ≡ m / 281474976710656 % 65536
    → n ≡ m
four_parts n m hn hm a b c d = omega arith

pub session_id-injective : (n m : ℕ) → n < 2 ^ 64 → m < 2 ^ 64 → session_id n ≡ session_id m → n ≡ m
unfolding session_id
session_id-injective n m hn hm h =
    let d = same_digit 16 n m h in
    four_parts n m hn hm
      (low_digits n m (let e = d 0 (omega arith) in omega arith) (d 1 (omega arith))
        (d 2 (omega arith)) (d 3 (omega arith)))
      (low_digits (n / 65536) (m / 65536) (d 4 (omega arith))
        (shift_digit 65536 16 (16 ^ 5) n m (d 5 (omega arith)) (omega arith) (omega arith))
        (shift_digit 65536 256 (16 ^ 6) n m (d 6 (omega arith)) (omega arith) (omega arith))
        (shift_digit 65536 4096 (16 ^ 7) n m (d 7 (omega arith)) (omega arith) (omega arith)))
      (low_digits (n / 4294967296) (m / 4294967296) (d 8 (omega arith))
        (shift_digit 4294967296 16 (16 ^ 9) n m (d 9 (omega arith)) (omega arith) (omega arith))
        (shift_digit 4294967296 256 (16 ^ 10) n m (d 10 (omega arith)) (omega arith) (omega arith))
        (shift_digit 4294967296 4096 (16 ^ 11) n m (d 11 (omega arith)) (omega arith)
          (omega arith)))
      (low_digits (n / 281474976710656) (m / 281474976710656) (d 12 (omega arith))
        (shift_digit 281474976710656 16 (16 ^ 13) n m (d 13 (omega arith)) (omega arith)
          (omega arith))
        (shift_digit 281474976710656 256 (16 ^ 14) n m (d 14 (omega arith)) (omega arith)
          (omega arith))
        (shift_digit 281474976710656 4096 (16 ^ 15) n m (d 15 (omega arith)) (omega arith)
          (omega arith)))
