-- ===== src/Base/Text.antt =====
-- Go's strings as texts: order, search, and the parts of a path.
use Prim.Native.Char.{code}
use Prim.Native.String.{String}
use mathlib.Core.Bool.{Bool, true, false, ◌&&◌, ◌||◌}
use mathlib.Core.List.{List, [], ◌∷◌}
use package.nexus_link.Base.Compare.{ltb, nat_eq, if◌then◌else◌}

-- the order of the database on texts
unfoldable pub text_leb : String → String → Bool
text_leb String.[] t = true
text_leb (String.◌∷◌ c s) String.[] = false
text_leb (String.◌∷◌ c s) (String.◌∷◌ d t) =
    ltb (code c) (code d) || (nat_eq (code c) (code d) && text_leb s t)

unfoldable pub has_prefix : String → String → Bool
has_prefix String.[] t = true
has_prefix (String.◌∷◌ c s) String.[] = false
has_prefix (String.◌∷◌ c s) (String.◌∷◌ d t) = nat_eq (code c) (code d) && has_prefix s t

-- strings.Contains
unfoldable pub contains : String → String → Bool
unfolding has_prefix
contains String.[] s = has_prefix s String.[]
contains (String.◌∷◌ c t) s = has_prefix s (String.◌∷◌ c t) || contains t s

module _ {ℓ} {A : Type ℓ} (column : A → String) where
  unfoldable pub place : A → List A → List A
  unfolding text_leb
  place x [] = x ∷ []
  place x (y ∷ ys) =
      let rest = place x ys in if text_leb (column x) (column y) then x ∷ y ∷ ys else y ∷ rest

  -- ORDER BY the column; rows with equal columns stay in their order
  unfoldable pub order_by : List A → List A
  unfolding place
  order_by [] = []
  order_by (x ∷ xs) = place x (order_by xs)
