-- ===== src/Wire/Endian.antt =====
-- Big-endian numbers of a fixed width, as encoding/binary reads and writes them.
use nexus_link.Base.{ℕ, zero, suc, ◌+◌, ◌*◌, ◌/◌, ◌%◌, ◌^◌, ◌<◌, ◌≡◌, refl, ap}
use nexus_link.Base.{List, [], ◌∷◌, arith, length, All}

-- BigEndian.PutUint: the `k` low bytes of `v`, highest first
unfoldable pub to_be : ℕ → ℕ → List ℕ
to_be zero v = []
to_be (suc k) v = (v / 256 ^ k % 256) ∷ to_be k v

-- BigEndian.Uint
unfoldable pub of_be : List ℕ → ℕ
of_be [] = 0
of_be (b ∷ bs) = b * 256 ^ length bs + of_be bs

abbrev pub IsByte : ℕ → Type 0
IsByte b = b < 256

pub length-to_be : (k v : ℕ) → length (to_be k v) ≡ k
unfolding to_be
length-to_be zero v = refl
length-to_be (suc k) v = ap suc (length-to_be k v)

pub to_be-IsByte : (k v : ℕ) → All IsByte (to_be k v)
unfolding to_be
to_be-IsByte zero v = tt
to_be-IsByte (suc k) v = (omega arith, to_be-IsByte k v)

pub of_be-to_be2 : (v : ℕ) → v < 2 ^ 16 → of_be (to_be 2 v) ≡ v
unfolding of_be to_be
of_be-to_be2 v h = omega arith

pub of_be-to_be4 : (v : ℕ) → v < 2 ^ 32 → of_be (to_be 4 v) ≡ v
unfolding of_be to_be
of_be-to_be4 v h = omega arith

pub of_be-to_be8 : (v : ℕ) → v < 2 ^ 64 → of_be (to_be 8 v) ≡ v
unfolding of_be to_be
of_be-to_be8 v h = omega arith

-- Bytes of the right number are read and written back as they were.
pub to_be-of_be2 : (xs : List ℕ) → All IsByte xs → length xs ≡ 2 → to_be 2 (of_be xs) ≡ xs
unfolding to_be of_be
to_be-of_be2 (a ∷ b ∷ []) h k = ground arith
to_be-of_be2 xs h k = absurd (omega arith)

pub to_be-of_be4 : (xs : List ℕ) → All IsByte xs → length xs ≡ 4 → to_be 4 (of_be xs) ≡ xs
unfolding to_be of_be
to_be-of_be4 (a ∷ b ∷ c ∷ d ∷ []) h k = ground arith
to_be-of_be4 xs h k = absurd (omega arith)

pub to_be-of_be8 : (xs : List ℕ) → All IsByte xs → length xs ≡ 8 → to_be 8 (of_be xs) ≡ xs
unfolding to_be of_be
to_be-of_be8 (a ∷ b ∷ c ∷ d ∷ e ∷ f ∷ g ∷ i ∷ []) h k = ground arith
to_be-of_be8 xs h k = absurd (omega arith)

pub of_be8-lt : (xs : List ℕ) → All IsByte xs → length xs ≡ 8 → of_be xs < 2 ^ 64
unfolding of_be
of_be8-lt (a ∷ b ∷ c ∷ d ∷ e ∷ f ∷ g ∷ i ∷ []) h k = omega arith
of_be8-lt xs h k = absurd (omega arith)

pub of_be4-lt : (xs : List ℕ) → All IsByte xs → length xs ≡ 4 → of_be xs < 2 ^ 32
unfolding of_be
of_be4-lt (a ∷ b ∷ c ∷ d ∷ []) h k = omega arith
of_be4-lt xs h k = absurd (omega arith)
