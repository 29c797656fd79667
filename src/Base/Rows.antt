-- ===== src/Base/Rows.antt =====
-- Rows of a table that are picked, changed or added, seen from one query.
use mathlib.Core.Path.{subst, ◌≡◌, refl}
use mathlib.Core.Logic.{◌≢◌, inl, inr}
use mathlib.Core.Bool.{Bool, true, false, ◌&&◌}
use mathlib.Core.Option.{some}
use mathlib.Core.List.{List, [], ◌∷◌, ◌++◌, map}
use native.Mathlib.Omega.{arith}
use package.nexus_link.Base.Compare.{Eq, Bool-cases, if◌then◌else◌}
use package.nexus_link.Base.Dict.{is_some}
use package.nexus_link.Base.Lists.{keep, any, All}
use nexus_link.Base.Tables.{find, update, delete, Distinct}

module _ {ℓ κ} {A : Type ℓ} {B : Type κ} where
  -- an update that does not change a column
  pub map-update :
      (column : A → B) (p : A → Bool) (f : A → A) (xs : List A)
      → ((x : A) → column (f x) ≡ column x)
      → map column (update p f xs) ≡ map column xs
  unfolding update
  map-update column p f [] h = refl
  map-update column p f (x ∷ xs) h = elim (Bool-cases (p x)) [
    | inl q ↦ ground (arith, q, h x, map-update column p f xs h)
    | inr q ↦ ground (arith, q, map-update column p f xs h)
  ]

module _ {ℓ} {A : Type ℓ} where
  -- a change of the rows that p selects, of which q selects none, is not seen in what q selects
  pub keep-update :
      (p q : A → Bool) (f : A → A) (xs : List A)
      → ((x : A) → q (f x) ≡ q x)
      → All (λ x. p x ≡ true → q x ≡ false) xs
      → keep q (update p f xs) ≡ keep q xs
  unfolding update
  keep-update p q f [] h a = refl
  keep-update p q f (x ∷ xs) h (b, a) = elim (Bool-cases (p x)) [
    | inl e ↦ ground (arith, e, h x, b e, keep-update p q f xs h a)
    | inr e ↦ ground (arith, e, keep-update p q f xs h a)
  ]

  pub keep-delete :
      (p q : A → Bool) (xs : List A)
      → All (λ x. p x ≡ true → q x ≡ false) xs
      → keep q (delete p xs) ≡ keep q xs
  keep-delete p q [] a = refl
  keep-delete p q (x ∷ xs) (b, a) = elim (Bool-cases (p x)) [
    | inl e ↦ ground (arith, e, b e, keep-delete p q xs a)
    | inr e ↦ ground (arith, e, keep-delete p q xs a)
  ]

  -- nor in the first of the rows that q selects
  pub find-update_other :
      (p q : A → Bool) (f : A → A) (xs : List A)
      → ((x : A) → q (f x) ≡ q x)
      → ((x : A) → p x ≡ true → q x ≡ false)
      → find q (update p f xs) ≡ find q xs
  unfolding find update
  find-update_other p q f [] h a = refl
  find-update_other p q f (x ∷ xs) h a = elim (Bool-cases (p x)) [
    | inl e ↦ ground (arith, e, h x, a x e, find-update_other p q f xs h a)
    | inr e ↦ ground (arith, e, find-update_other p q f xs h a)
  ]

  pub is_some-find-append :
      (p : A → Bool) (xs : List A) (y : A)
      → is_some (find p (xs ++ (y ∷ []))) ≡ (if p y then true else is_some (find p xs))
  unfolding find
  is_some-find-append p [] y = ground arith
  is_some-find-append p (x ∷ xs) y = elim (Bool-cases (p x)) [
    | inl q ↦ ground (arith, q)
    | inr q ↦ ground (arith, q, is_some-find-append p xs y)
  ]

  -- what all rows satisfy, a row that is found satisfies
  pub All-find {κ} :
      (P : A → Type κ) (p : A → Bool) (xs : List A) (x : A) → All P xs → find p xs ≡ some x → P x
  unfolding find
  All-find P p [] x h e = absurd (ground (arith, e))
  All-find P p (y ∷ xs) x (a, h) e = elim (Bool-cases (p y)) [
    | inl q ↦ let same : y ≡ x = ground (arith, q, e) in subst P same a
    | inr q ↦ All-find P p xs x h (ground (arith, q, e))
  ]

module _ {ℓ κ} {A : Type ℓ} {K : Type κ} ⦃e : Eq K⦄ (column : A → K) where
  -- a row that is found by one condition is found by any other that only rows with its column satisfy
  pub find-Distinct :
      (p q : A → Bool) (xs : List A) (u : A)
      → Distinct column xs
      → find p xs ≡ some u
      → q u ≡ true
      → ((x : A) → q x ≡ true → column x ≡ column u)
      → find q xs ≡ some u
  unfolding find
  find-Distinct p q [] u d f h only = absurd (ground (arith, f))
  find-Distinct p q (x ∷ xs) u (a, d) f h only = elim (Bool-cases (p x)) [
    | inl t ↦ let same : x ≡ u = ground (arith, t, f) in ground (arith, same, h)
    | inr t ↦
        let later : find p xs ≡ some u = ground (arith, t, f) in
        let rest = find-Distinct p q xs u d later h only in
        let other = All-find (λ y. column x ≢ column y) p xs u a later in
        elim (Bool-cases (q x)) [
          | inl r ↦ elim (other (only x r)) [ ]
          | inr r ↦ ground (arith, r, rest)
        ]
  ]

module _ {ℓ} {A : Type ℓ} where
  pub any-keep : (p q : A → Bool) (xs : List A) → any p (keep q xs) ≡ any (λ x. q x && p x) xs
  any-keep p q [] = refl
  any-keep p q (x ∷ xs) = elim (Bool-cases (q x)) [
    | inl t ↦ ground (arith, t, any-keep p q xs)
    | inr t ↦ ground (arith, t, any-keep p q xs)
  ]

  pub keep_ext : (p q : A → Bool) (xs : List A) → ((x : A) → p x ≡ q x) → keep p xs ≡ keep q xs
  keep_ext p q [] h = refl
  keep_ext p q (x ∷ xs) h = elim (Bool-cases (p x)) [
    | inl t ↦ ground (arith, t, h x, keep_ext p q xs h)
    | inr t ↦ ground (arith, t, h x, keep_ext p q xs h)
  ]

  pub any-append :
      (p : A → Bool) (xs ys : List A)
      → any p xs ≡ false
      → any p ys ≡ false
      → any p (xs ++ ys) ≡ false
  any-append p [] ys h k = k
  any-append p (x ∷ xs) ys h k = elim (Bool-cases (p x)) [
    | inl t ↦ ground (arith, t, h)
    | inr t ↦ ground (arith, t, any-append p xs ys (ground (arith, t, h)) k)
  ]
