-- ===== src/Web/Csrf.antt =====
-- What the CSRF test of pkg/web/server.go: authMiddleware asks of a request.
use nexus_link.Base.{◌≢◌, ◌⊎◌, inl, inr, ◌==◌, false}
use nexus_link.Base.{String, ◌≡◌, refl, sym, ap, ◌∙◌, inl, inr}
use nexus_link.Base.{true, false, arith}
use nexus_link.Base.{
  Bool, Bool-cases, &&-true, ◌||◌, ◌&&◌, not, if◌then◌else◌, ◌==◌, Eq-nat, Eq-string, Eq-bytes,
  Eq-pair,
}
use nexus_link.Base.Dict.{apart}
use nexus_link.Web.State.{SecuritySettings, SessionInfo}
use nexus_link.Web.Login.{PanelRequest, csrf_ok}

-- the request carries the token of the session, in its header or else in its form
abbrev pub CarriesToken : PanelRequest → SessionInfo → Type 0
CarriesToken r info =
    (info.csrf_token ≢ "")
    × ((r.csrf_header ≡ info.csrf_token) ⊎ ((r.csrf_header ≡ "") × (r.csrf_form ≡ info.csrf_token)))

-- the request needs no token
abbrev pub IsExempt : PanelRequest → SecuritySettings → Type 0
IsExempt r sec =
    (sec.csrf_protection ≡ false)
    ⊎ ((r.method ≢ "POST") × (r.method ≢ "PUT") × (r.method ≢ "DELETE"))

abbrev changes : PanelRequest → Bool
changes r = r.method == "POST" || r.method == "PUT" || r.method == "DELETE"

abbrev token_sent : PanelRequest → String
token_sent r = if r.csrf_header == "" then r.csrf_form else r.csrf_header

pub differs : (x y : String) → (x == y) ≡ false → x ≢ y
differs x y q e = absurd (ground (arith, q, (Eq-string.same_iff x y).1 e))

sent-CarriesToken :
    (r : PanelRequest) (info : SessionInfo)
    → (token_sent r == "") ≡ false
    → token_sent r ≡ info.csrf_token
    → CarriesToken r info
sent-CarriesToken r info n e = (
  λ z. differs (token_sent r) "" n (e ∙ z),
  elim (Bool-cases (r.csrf_header == "")) [
    | inl q ↦
        let form : token_sent r ≡ r.csrf_form = rw q refl in
        inr ((Eq-string.same_iff r.csrf_header "").0 q, sym form ∙ e)
    | inr q ↦ let header : token_sent r ≡ r.csrf_header = rw q refl in inl (sym header ∙ e)
  ],
)

CarriesToken-sent :
    (r : PanelRequest) (info : SessionInfo)
    → CarriesToken r info
    → ((token_sent r == "") ≡ false) × ((token_sent r == info.csrf_token) ≡ true)
CarriesToken-sent r info (n, w) =
    let set : (info.csrf_token == "") ≡ false = apart info.csrf_token "" n in
    let sent : token_sent r ≡ info.csrf_token = elim w [
      | inl e ↦ let q : (r.csrf_header == "") ≡ false = ap (λ x. x == "") e ∙ set in rw q e
      | inr (z, e) ↦
          let q : (r.csrf_header == "") ≡ true = (Eq-string.same_iff r.csrf_header "").1 z in rw q e
    ] in
    (ap (λ x. x == "") sent ∙ set, (Eq-string.same_iff (token_sent r) info.csrf_token).1 sent)

pub csrf_ok_passed :
    (r : PanelRequest) (info : SessionInfo) (sec : SecuritySettings)
    → csrf_ok r info sec ≡ true
    → IsExempt r sec ⊎ CarriesToken r info
unfolding csrf_ok
csrf_ok_passed r info sec h = elim (Bool-cases sec.csrf_protection) [
  | inr q ↦ inl (inl q)
  | inl q ↦ elim (Bool-cases (changes r)) [
    | inr m ↦
        let (x, y, z) : ((r.method == "POST") ≡ false)
            × ((r.method == "PUT") ≡ false)
            × ((r.method == "DELETE") ≡ false) =
          (ground (arith, m), ground (arith, m), ground (arith, m)) in
        inl (inr (differs r.method "POST" x, differs r.method "PUT" y, differs r.method "DELETE" z))
    | inl m ↦
        let both : (not (token_sent r == "") && token_sent r == info.csrf_token) ≡ true =
          ground (arith, h, m, q) in
        let (n, e) = &&-true (not (token_sent r == "")) (token_sent r == info.csrf_token) both in
        inr (
          sent-CarriesToken r info (ground (arith, n))
            ((Eq-string.same_iff (token_sent r) info.csrf_token).0 e))
  ]
]

pub csrf_ok_holds :
    (r : PanelRequest) (info : SessionInfo) (sec : SecuritySettings)
    → IsExempt r sec ⊎ CarriesToken r info
    → csrf_ok r info sec ≡ true
unfolding csrf_ok
csrf_ok_holds r info sec (inl (inl q)) = ground (arith, q)
csrf_ok_holds r info sec (inl (inr (x, y, z))) =
    let m : changes r ≡ false =
      ground (arith, apart r.method "POST" x, apart r.method "PUT" y, apart r.method "DELETE" z) in
    ground (arith, m)
csrf_ok_holds r info sec (inr w) = let (n, e) = CarriesToken-sent r info w in ground (arith, n, e)
