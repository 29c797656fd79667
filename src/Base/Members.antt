-- ===== src/Base/Members.antt =====
-- The rows of a table and the elements of a list, by membership.
use mathlib.Core.Path.{subst, ◌≡◌, refl, sym, ap, ◌∙◌}
use mathlib.Core.Logic.{◌≢◌, inl, inr, ◌↔◌}
use mathlib.Core.Bool.{Bool, true, false}
use mathlib.Core.Option.{none, some}
use mathlib.Core.List.{List, [], ◌∷◌}
use native.Mathlib.Omega.{arith}
use package.nexus_link.Base.Compare.{Eq, Bool-cases, Option-cases, if◌then◌else◌}
use package.nexus_link.Base.Lists.{any, All}
use nexus_link.Base.Tables.{find, find_holds, Distinct}

pub data Member {ℓ} {A : Type ℓ} : A → List A → Type ℓ where
  here : {x y : A} {xs : List A} → x ≡ y → Member x (y ∷ xs)
  later : {x y : A} {xs : List A} → Member x xs → Member x (y ∷ xs)

module _ {ℓ} {A : Type ℓ} where
  pub All-Member {κ} : (P : A → Type κ) (xs : List A) (x : A) → All P xs → Member x xs → P x
  All-Member P [] x h m = elim m [ ]
  All-Member P (y ∷ xs) x (a, h) (here e) = subst P (sym e) a
  All-Member P (y ∷ xs) x (a, h) (later m) = All-Member P xs x h m

  -- a loop that looks for an element with a property
  pub any-Member :
      (p : A → Bool) (xs : List A) → (any p xs ≡ true) ↔ ((x : A) × Member x xs × (p x ≡ true))
  any-Member p xs = (there xs, λ (x, m, h). back xs x m h)
    where
      there : (xs : List A) → any p xs ≡ true → (x : A) × Member x xs × (p x ≡ true)
      there [] h = absurd (ground (arith, h))
      there (y ∷ xs) h = elim (Bool-cases (p y)) [
        | inl q ↦ (y, here refl, q)
        | inr q ↦ let (x, m, k) = there xs (ground (arith, q, h)) in (x, later m, k)
      ]

      back : (xs : List A) (x : A) → Member x xs → p x ≡ true → any p xs ≡ true
      back [] x m h = elim m [ ]
      back (y ∷ xs) x (here e) h = let k : p y ≡ true = ap p (sym e) ∙ h in ground (arith, k)
      back (y ∷ xs) x (later m) h = elim (Bool-cases (p y)) [
        | inl q ↦ ground (arith, q)
        | inr q ↦ ground (arith, q, back xs x m h)
      ]

  -- a row that is found is one of the rows
  pub Member-find : (p : A → Bool) (xs : List A) (x : A) → find p xs ≡ some x → Member x xs
  unfolding find
  Member-find p [] x e = absurd (ground (arith, e))
  Member-find p (y ∷ xs) x e = elim (Bool-cases (p y)) [
    | inl q ↦ let same : x ≡ y = ground (arith, q, e) in here same
    | inr q ↦ later (Member-find p xs x (ground (arith, q, e)))
  ]

  unfound-Member :
      (p : A → Bool) (xs : List A) (x : A) → find p xs ≡ none → Member x xs → p x ≡ false
  unfolding find
  unfound-Member p [] x e m = elim m [ ]
  unfound-Member p (y ∷ xs) x e m = elim (Bool-cases (p y)) [
    | inl q ↦ absurd (ground (arith, q, e))
    | inr q ↦ elim m [
      | here s ↦ ap p s ∙ q
      | later k ↦ unfound-Member p xs x (ground (arith, q, e)) k
    ]
  ]

module _ {ℓ κ} {A : Type ℓ} {K : Type κ} ⦃e : Eq K⦄ (column : A → K) where
  -- rows with the same value in a column without duplicates are the same
  unique-Member :
      (xs : List A) (x y : A)
      → Distinct column xs
      → Member x xs
      → Member y xs
      → column x ≡ column y
      → x ≡ y
  unique-Member [] x y d m n q = elim m [ ]
  unique-Member (z ∷ xs) x y (a, d) (here s) (here t) q = s ∙ sym t
  unique-Member (z ∷ xs) x y (a, d) (here s) (later n) q =
      elim (All-Member (λ w. column z ≢ column w) xs y a n (ap column (sym s) ∙ q)) [ ]
  unique-Member (z ∷ xs) x y (a, d) (later m) (here t) q =
      elim (All-Member (λ w. column z ≢ column w) xs x a m (ap column (sym t) ∙ sym q)) [ ]
  unique-Member (z ∷ xs) x y (a, d) (later m) (later n) q = unique-Member xs x y d m n q

  -- a row is what a condition finds that only rows with its column satisfy
  pub find-Member :
      (p : A → Bool) (xs : List A) (u : A)
      → Distinct column xs
      → Member u xs
      → ((x : A) → p x ≡ true → column x ≡ column u)
      → find p xs ≡ (if p u then some u else none)
  find-Member p xs u d m only = elim (Option-cases (find p xs)) [
    | inr n ↦ n ∙ rw (unfound-Member p xs u n m) refl
    | inl (x, f) ↦
        let h = find_holds p xs x f in
        let same = unique-Member xs x u d (Member-find p xs x f) m (only x h) in
        let k : p u ≡ true = ap p (sym same) ∙ h in f ∙ rw k (ap some same)
  ]
