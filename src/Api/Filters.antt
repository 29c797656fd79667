-- ===== src/Api/Filters.antt =====
-- What the filters of a listing of tunnels ask for (pkg/web/server.go, v1HandleProxies).
use nexus_link.Base.{String, ◌≡◌, ◌≢◌, ◌⊎◌, inl, inr}
use nexus_link.Base.{Bool, true, false, ◌&&◌, ◌||◌, arith}
use nexus_link.Base.{Bool-cases, ◌==◌, Eq-nat, Eq-string, Eq-bytes, Eq-pair}
use nexus_link.Base.Text.{contains}
use nexus_link.Store.Tables.{Proxy}
use nexus_link.Api.Proxies.{Filter, flag_allows, allows}

-- a filter that is empty asks for nothing
abbrev pub IsText : String → String → Type 0
IsText query text = (query ≡ "") ⊎ (text ≡ query)

-- "1" and "true" ask for a flag that is set, any other text for one that is not
abbrev pub IsFlag : String → Bool → Type 0
IsFlag query flag =
    (query ≡ "")
    ⊎ ((((query ≡ "1") ⊎ (query ≡ "true")) × (flag ≡ true))
        ⊎ ((query ≢ "1") × (query ≢ "true") × (flag ≡ false)))

abbrev pub IsAsked : Filter → Proxy → Bool → Type 0
IsAsked q x active =
    IsText q.client_name x.client_name
    × IsText q.type x.type
    × IsFlag q.enabled x.enabled
    × IsFlag q.active active
    × ((q.search ≡ "") ⊎ (contains x.name q.search ≡ true))

IsText-passed : (query text : String) → (query == "" || text == query) ≡ true → IsText query text
IsText-passed query text h = elim (Bool-cases (query == "")) [
  | inl q ↦ inl ((Eq-string.same_iff query "").0 q)
  | inr q ↦ inr ((Eq-string.same_iff text query).0 (ground (arith, q, h)))
]

other : (x y : String) → (x == y) ≡ false → x ≢ y
other x y q e = absurd (ground (arith, q, (Eq-string.same_iff x y).1 e))

IsFlag-passed : (query : String) (flag : Bool) → flag_allows query flag ≡ true → IsFlag query flag
unfolding flag_allows
IsFlag-passed query flag h = elim (Bool-cases (query == "")) [
  | inl q ↦ inl ((Eq-string.same_iff query "").0 q)
  | inr q ↦ elim (Bool-cases (query == "1")) [
    | inl a ↦ inr (inl (inl ((Eq-string.same_iff query "1").0 a), ground (arith, q, a, h)))
    | inr a ↦ elim (Bool-cases (query == "true")) [
      | inl b ↦ inr (inl (inr ((Eq-string.same_iff query "true").0 b), ground (arith, q, a, b, h)))
      | inr b ↦ inr (inr (other query "1" a, other query "true" b, ground (arith, q, a, b, h)))
    ]
  ]
]

all_passed :
    (a b c d e : Bool)
    → (a && b && c && d && e) ≡ true
    → (a ≡ true) × (b ≡ true) × (c ≡ true) × (d ≡ true) × (e ≡ true)
all_passed a b c d e h = (ground arith, ground arith, ground arith, ground arith, ground arith)

search_passed :
    (query name : String)
    → (query == "" || contains name query) ≡ true
    → (query ≡ "") ⊎ (contains name query ≡ true)
search_passed query name h = elim (Bool-cases (query == "")) [
  | inl q ↦ inl ((Eq-string.same_iff query "").0 q)
  | inr q ↦ inr (ground (arith, q, h))
]

pub allows-IsAsked :
    (q : Filter) (x : Proxy) (active : Bool) → allows q x active ≡ true → IsAsked q x active
unfolding allows
allows-IsAsked q x active h =
    let (a, b, c, d, e) = all_passed _ _ _ _ _ h in
    (
      IsText-passed q.client_name x.client_name a,
      IsText-passed q.type x.type b,
      IsFlag-passed q.enabled x.enabled c,
      IsFlag-passed q.active active d,
      search_passed q.search x.name e,
    )
