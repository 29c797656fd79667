-- ===== src/Base/Tables.antt =====
-- Tables of a database as lists of rows: selection, deletion, update, and columns without duplicates.
use mathlib.Core.Path.{◌≡◌, refl, sym, ◌∙◌}
use mathlib.Core.Logic.{◌≢◌, inl, inr}
use mathlib.Core.Bool.{Bool, true, false, not, ◌&&◌}
use mathlib.Core.Option.{Option, none, some}
use mathlib.Core.List.{List, [], ◌∷◌, ◌++◌}
use native.Mathlib.Omega.{arith}
use package.nexus_link.Base.Compare.{Eq, ◌==◌, Bool-cases, if◌then◌else◌}
use package.nexus_link.Base.Lists.{keep, All}

module _ {ℓ} {A : Type ℓ} where
  -- SELECT … WHERE p, the first row
  unfoldable pub find : (A → Bool) → List A → Option A
  find p [] = none
  find p (x ∷ xs) = let rest = find p xs in if p x then some x else rest

  -- UPDATE … WHERE p
  unfoldable pub update : (A → Bool) → (A → A) → List A → List A
  update p f [] = []
  update p f (x ∷ xs) = (if p x then f x else x) ∷ update p f xs

  -- DELETE … WHERE p
  abbrev pub delete : (A → Bool) → List A → List A
  delete p xs = keep (λ x. not (p x)) xs

  pub find-append_none :
      (p : A → Bool) (xs : List A) (y : A)
      → find p xs ≡ none
      → find p (xs ++ (y ∷ [])) ≡ (if p y then some y else none)
  unfolding find
  find-append_none p [] y h = refl
  find-append_none p (x ∷ xs) y h = elim (Bool-cases (p x)) [
    | inl q ↦ ground (arith, q, h)
    | inr q ↦ rw q (find-append_none p xs y (ground (arith, q, h)))
  ]

  pub find-append_some :
      (p : A → Bool) (xs ys : List A) (x : A) → find p xs ≡ some x → find p (xs ++ ys) ≡ some x
  unfolding find
  find-append_some p [] ys x h = cc
  find-append_some p (y ∷ xs) ys x h = elim (Bool-cases (p y)) [
    | inl q ↦ ground (arith, q, h)
    | inr q ↦ rw q (find-append_some p xs ys x (ground (arith, q, h)))
  ]

  pub All-keep {κ} : (P : A → Type κ) (p : A → Bool) (xs : List A) → All P xs → All P (keep p xs)
  All-keep P p [] h = tt
  All-keep P p (x ∷ xs) (a, h) = elim (Bool-cases (p x)) [
    | inl q ↦ rw (q, keep) (a, All-keep P p xs h)
    | inr q ↦ rw (q, keep) (All-keep P p xs h)
  ]

  -- what no row satisfies, none satisfies with more asked of it
  pub find-and_none :
      (p q : A → Bool) (xs : List A) → find p xs ≡ none → find (λ x. p x && q x) xs ≡ none
  unfolding find
  find-and_none p q [] h = refl
  find-and_none p q (x ∷ xs) h = elim (Bool-cases (p x)) [
    | inl e ↦ ground (arith, e, h)
    | inr e ↦ ground (arith, e, find-and_none p q xs (ground (arith, e, h)))
  ]

  -- a row that is found satisfies the condition
  pub find_holds : (p : A → Bool) (xs : List A) (x : A) → find p xs ≡ some x → p x ≡ true
  unfolding find
  find_holds p [] x h = cc
  find_holds p (y ∷ xs) x h = elim (Bool-cases (p y)) [
    | inl q ↦ ground (arith, q, h)
    | inr q ↦ find_holds p xs x (ground (arith, q, h))
  ]

  -- rows that are deleted are not found, others are as before
  pub find-delete :
      (p q : A → Bool) (xs : List A)
      → ((x : A) → q x ≡ true → p x ≡ false)
      → find q (delete p xs) ≡ find q xs
  unfolding find
  find-delete p q [] h = refl
  find-delete p q (x ∷ xs) h = elim (Bool-cases (p x)) [
    | inr e ↦ ground (arith, e, find-delete p q xs h)
    | inl e ↦ ground (arith, e, h x, find-delete p q xs h)
  ]

  pub find-delete-none : (p : A → Bool) (xs : List A) → find p (delete p xs) ≡ none
  unfolding find
  find-delete-none p [] = refl
  find-delete-none p (x ∷ xs) = elim (Bool-cases (p x)) [
    | inr e ↦ ground (arith, e, find-delete-none p xs)
    | inl e ↦ ground (arith, e, find-delete-none p xs)
  ]

  -- an update that does not change whether a row satisfies q
  pub find-update :
      (p q : A → Bool) (f : A → A) (xs : List A)
      → ((x : A) → q (f x) ≡ q x)
      → find q (update p f xs)
        ≡ elim (find q xs) [ none ↦ none | some x ↦ some (if p x then f x else x) ]
  unfolding find update
  find-update p q f [] h = refl
  find-update p q f (x ∷ xs) h = elim (Bool-cases (p x)) [
    | inl e ↦ ground (arith, e, h x, find-update p q f xs h)
    | inr e ↦ ground (arith, e, h x, find-update p q f xs h)
  ]

-- a column without duplicates
module _ {ℓ κ} {A : Type ℓ} {K : Type κ} ⦃e : Eq K⦄ (column : A → K) where
  abbrev pub Distinct : List A → Type κ
  Distinct [] = Unit
  Distinct (x ∷ xs) = All (λ y. column x ≢ column y) xs × Distinct xs

  -- no row has the value
  pub All-find-none :
      (k : K) (xs : List A) → find (λ x. column x == k) xs ≡ none → All (λ y. column y ≢ k) xs
  unfolding find
  All-find-none k [] h = tt
  All-find-none k (x ∷ xs) h =
      (λ q. ground (arith, h, q, e.same_iff (column x) k), All-find-none k xs (ground (arith, h)))

  apart_from :
      (x y : A) (xs : List A)
      → All (λ z. column x ≢ column z) xs
      → column y ≢ column x
      → All (λ z. column x ≢ column z) (xs ++ (y ∷ []))
  apart_from x y [] h n = (λ q. n (sym q), tt)
  apart_from x y (z ∷ xs) (p, h) n = (p, apart_from x y xs h n)

  pub Distinct-append :
      (y : A) (xs : List A)
      → Distinct xs
      → All (λ z. column z ≢ column y) xs
      → Distinct (xs ++ (y ∷ []))
  Distinct-append y [] d h = (tt, tt)
  Distinct-append y (x ∷ xs) (p, d) (q, h) =
      (apart_from x y xs p (λ r. q (sym r)), Distinct-append y xs d h)

  pub Distinct-keep : (p : A → Bool) (xs : List A) → Distinct xs → Distinct (keep p xs)
  Distinct-keep p [] d = tt
  Distinct-keep p (x ∷ xs) (a, d) = elim (Bool-cases (p x)) [
    | inl q ↦ rw (q, keep) (All-keep _ p xs a, Distinct-keep p xs d)
    | inr q ↦ rw (q, keep) (Distinct-keep p xs d)
  ]

  All-update :
      (k : K) (p : A → Bool) (f : A → A) (xs : List A)
      → ((x : A) → column (f x) ≡ column x)
      → All (λ y. k ≢ column y) xs
      → All (λ y. k ≢ column y) (update p f xs)
  unfolding update
  All-update k p f [] s h = tt
  All-update k p f (x ∷ xs) s (a, h) = (λ q. a (q ∙ ground (arith, s x)), All-update k p f xs s h)

  same_column :
      (p : A → Bool) (f : A → A) (x : A)
      → ((x : A) → column (f x) ≡ column x)
      → column (if p x then f x else x) ≡ column x
  same_column p f x s = ground (arith, s x)

  pub Distinct-update :
      (p : A → Bool) (f : A → A) (xs : List A)
      → ((x : A) → column (f x) ≡ column x)
      → Distinct xs
      → Distinct (update p f xs)
  unfolding update
  Distinct-update p f [] s d = tt
  Distinct-update p f (x ∷ xs) s (a, d) =
      (All-update _ p f xs s (rw (same_column p f x s) a), Distinct-update p f xs s d)
