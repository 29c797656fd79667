-- ===== src/Base/Dict.antt =====
-- Go's maps as association lists in insertion order; keys are compared by an instance of `Eq`.
use mathlib.Core.Path.{◌≡◌, refl, ◌∙◌}
use mathlib.Core.Logic.{◌≢◌, ◌⊎◌, inl, inr}
use mathlib.Core.Bool.{Bool, true, false}
use mathlib.Core.Option.{Option, none, some}
use mathlib.Core.List.{List, [], ◌∷◌}
use native.Mathlib.Omega.{arith}
use package.nexus_link.Base.Compare.{Eq, ◌==◌, ==_refl, Bool-cases, if◌then◌else◌}

abbrev pub Dict {ℓ κ} : Type ℓ → Type κ → Type (ℓ ⊔ κ)
Dict K V = List (K × V)

abbrev pub is_some {ℓ} : {A : Type ℓ} → Option A → Bool
is_some none = false
is_some (some _) = true

abbrev pub get_or {ℓ} : {A : Type ℓ} → Option A → A → A
get_or none d = d
get_or (some a) d = a

pub apart {ℓ} : {K : Type ℓ} ⦃e : Eq K⦄ (k j : K) → k ≢ j → (k == j) ≡ false
apart ⦃e⦄ k j n = elim (Bool-cases (k == j)) [
  | inl q ↦ elim (n ((e.same_iff k j).0 q)) [ ]
  | inr q ↦ q
]

unfoldable pub keys {ℓ κ} : {K : Type ℓ} {V : Type κ} → Dict K V → List K
keys [] = []
keys ((k, v) ∷ m) = k ∷ keys m

-- whether a range in some order comes to a key
unfoldable pub visits {ℓ} : {K : Type ℓ} ⦃e : Eq K⦄ → List K → K → Bool
visits [] j = false
visits (k ∷ order) j = let rest = visits order j in if k == j then true else rest

module _ {ℓ κ} {K : Type ℓ} {V : Type κ} ⦃e : Eq K⦄ where
  -- v, ok := m[k]
  unfoldable pub lookup : K → Dict K V → Option V
  lookup k [] = none
  lookup k ((j, v) ∷ m) = let rest = lookup k m in if j == k then some v else rest

  -- m[k] = v
  unfoldable pub insert : K → V → Dict K V → Dict K V
  insert k v [] = (k, v) ∷ []
  insert k v ((j, w) ∷ m) = let rest = insert k v m in if j == k then (k, v) ∷ m else (j, w) ∷ rest

  -- delete(m, k)
  unfoldable pub remove : K → Dict K V → Dict K V
  remove k [] = []
  remove k ((j, w) ∷ m) = let rest = remove k m in if j == k then rest else (j, w) ∷ rest

  pub lookup-insert :
      (put get : K) (v : V) (m : Dict K V)
      → lookup get (insert put v m) ≡ (if put == get then some v else lookup get m)
  unfolding lookup insert
  lookup-insert put get v ((i, w) ∷ m) =
      let rest = lookup-insert put get v m in
      ground (arith, rest, e.same_iff put get, e.same_iff i put, e.same_iff i get)
  lookup-insert put get v [] = refl

  pub lookup-remove :
      (k j : K) (m : Dict K V) → lookup j (remove k m) ≡ (if k == j then none else lookup j m)
  unfolding lookup remove
  lookup-remove k j [] = ground arith
  lookup-remove k j ((i, w) ∷ m) =
      ground (arith, e.same_iff k j, e.same_iff i k, e.same_iff i j, lookup-remove k j m)

  pub lookup-insert_self : (k : K) (v : V) (m : Dict K V) → lookup k (insert k v m) ≡ some v
  lookup-insert_self k v m = lookup-insert k k v m ∙ rw (==_refl k)

  pub lookup-insert_other :
      (k j : K) (v : V) (m : Dict K V) → (k == j) ≡ false → lookup j (insert k v m) ≡ lookup j m
  lookup-insert_other k j v m q = lookup-insert k j v m ∙ rw q refl

  pub lookup-remove_other :
      (k j : K) (m : Dict K V) → (k == j) ≡ false → lookup j (remove k m) ≡ lookup j m
  lookup-remove_other k j m q = lookup-remove k j m ∙ rw q refl

  -- what is found after an insertion is the inserted value or was there before
  pub insert_cases :
      (k j : K) (v w : V) (m : Dict K V)
      → lookup j (insert k v m) ≡ some w
      → ((k ≡ j) × (v ≡ w)) ⊎ (((k == j) ≡ false) × (lookup j m ≡ some w))
  insert_cases k j v w m h = elim (Bool-cases (k == j)) [
    | inl q ↦ inl ((e.same_iff k j).0 q, ground (arith, lookup-insert k j v m))
    | inr q ↦ inr (q, ground (arith, lookup-insert k j v m))
  ]

  -- what is found after a removal was there before, at another key
  pub remove_cases :
      (k j : K) (w : V) (m : Dict K V)
      → lookup j (remove k m) ≡ some w
      → ((k == j) ≡ false) × (lookup j m ≡ some w)
  remove_cases k j w m h = elim (Bool-cases (k == j)) [
    | inl q ↦ ground (arith, lookup-remove k j m)
    | inr q ↦ (q, ground (arith, lookup-remove k j m))
  ]

  -- an insertion of a new key is undone by its removal
  pub remove-insert_new :
      (k : K) (v : V) (m : Dict K V) → lookup k m ≡ none → remove k (insert k v m) ≡ m
  unfolding lookup insert remove
  remove-insert_new k v [] h = rw (==_refl k) refl
  remove-insert_new k v ((j, w) ∷ m) h = ground (arith, h, remove-insert_new k v m, e.same_iff j k)

  -- a range over a map comes to every key that it has
  pub visits-keys : (m : Dict K V) (k : K) (v : V) → lookup k m ≡ some v → visits (keys m) k ≡ true
  unfolding visits lookup keys
  visits-keys [] k v h = cc
  visits-keys ((j, w) ∷ m) k v h = ground (arith, visits-keys m k v)
