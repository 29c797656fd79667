-- ===== src/Api/Login.antt =====
-- Login through the API: the token that it gives is that of the user.
use nexus_link.Base.{String, ◌≡◌, refl, sym, ap, ◌∙◌, ◌⊎◌, inl, inr}
use nexus_link.Base.{Bool, true, false, ◌&&◌, ◌||◌, Option, none, some, arith}
use nexus_link.Base.{Bool-cases, Option-cases, ◌==◌, Eq-nat, Eq-string, Eq-bytes, Eq-pair, ==_refl}
use nexus_link.Base.{All}
use mathlib.Core.Path.{subst}
use nexus_link.Base.Dict.{get_or}
use nexus_link.Base.Tables.{find, Distinct, find_holds}
use nexus_link.Base.Rows.{find-Distinct, All-find}
use nexus_link.Store.Tables.{User, Store}
use nexus_link.Store.Users.{
  is_user, hash_password, get_user, get_user_by_token, verify_user_password,
}
use nexus_link.Store.Keys.{has_api_key}
use nexus_link.Store.Login.{token_of}
use nexus_link.Web.Access.{api_identity}
use nexus_link.Web.Tenancy.{identity-user}
use nexus_link.Api.State.{Panel, web_of, Reply, refuse, answer, identity, with_store-some}
use nexus_link.Api.Users.{login_reply, login_user, v1_handle_login}

-- the user behind a login that succeeds
unfoldable pub IsLogin : (String → String) → String → String → Store → Panel → Reply → Type 0
IsLogin digest username password db p r =
    (u : User) × (get_user false username db ≡ some (some u))
    × (hash_password digest password u.password_salt ≡ u.password_hash)
    × (r ≡ answer (identity u.username u.role u.api_token) p)
    × (api_identity false false u.api_token (web_of p)
        ≡ some (record { admin = false; username = u.username; role = u.role }))

token_finds :
    (u : User) (db : Store)
    → Distinct token_of db.users
    → find (is_user u.username) db.users ≡ some u
    → u.status ≡ "active"
    → get_user_by_token false u.api_token db ≡ some (some u)
unfolding get_user_by_token
token_finds u db d f s = ap some (
    find-Distinct token_of (is_user u.username)
      (λ v. v.api_token == u.api_token && v.status == "active") db.users u d f
      (ground (arith, ==_refl u.api_token, (Eq-string.same_iff u.status "active").1 s))
      (λ v h. ground (arith, h, Eq-string.same_iff v.api_token u.api_token)))

-- what is known of a user whose password is accepted
accepted :
    (digest : String → String) (username password : String) (u : User) (db : Store)
    → verify_user_password digest false username password db ≡ (some u, true)
    → (get_user false username db ≡ some (some u))
      × (hash_password digest password u.password_salt ≡ u.password_hash)
      × (u.username ≡ username)
      × (u.status ≡ "active")
unfolding verify_user_password get_user
accepted digest username password u db h = elim (Option-cases (find (is_user username) db.users)) [
  | inr n ↦
      let none_ : verify_user_password digest false username password db ≡ (none, false) =
        rw (n, verify_user_password) refl in
      absurd (ground (arith, sym none_ ∙ h))
  | inl (v, n) ↦ elim (Bool-cases (v.status == "active")) [
    | inr t ↦
        let none_ : verify_user_password digest false username password db ≡ (none, false) =
          rw (n, t, verify_user_password) refl in
        absurd (ground (arith, sym none_ ∙ h))
    | inl t ↦
        let ok = hash_password digest password v.password_salt == v.password_hash in
        let told : verify_user_password digest false username password db ≡ (some v, ok) =
          rw (n, t, verify_user_password) refl in
        let same : v ≡ u = ground (arith, sym told ∙ h) in
        let right : ok ≡ true = ap (λ z. z.1) (sym told ∙ h) in
        subst
          (λ w.
            (some (find (is_user username) db.users) ≡ some (some w))
            × (hash_password digest password w.password_salt ≡ w.password_hash)
            × (w.username ≡ username)
            × (w.status ≡ "active"))
          same
          (
            ap some n,
            (Eq-string.same_iff (hash_password digest password v.password_salt) v.password_hash).0
                right,
            (Eq-string.same_iff v.username username).0 (find_holds (is_user username) db.users v n),
            (Eq-string.same_iff v.status "active").0 t,
          )
  ]
]

found_row :
    (username : String) (u : User) (db : Store)
    → get_user false username db ≡ some (some u)
    → find (is_user username) db.users ≡ some u
unfolding get_user
found_row username u db g = ground (arith, g)

logged_in :
    (digest : String → String) (username password : String) (u : User) (db : Store) (p : Panel)
    → p.server.store ≡ some db
    → Distinct token_of db.users
    → (u.api_token == "") ≡ false
    → has_api_key false u.api_token db ≡ some false
    → verify_user_password digest false username password db ≡ (some u, true)
    → IsLogin digest username password db p (answer (identity u.username u.role u.api_token) p)
unfolding web_of get_user IsLogin
logged_in digest username password u db p e d n k v =
    let (g, w, same, active) = accepted digest username password u db v in
    let g' : some (find (is_user u.username) db.users) ≡ some (some u) =
      subst (λ n. some (find (is_user n) db.users) ≡ some (some u)) (sym same) g in
    let found : find (is_user u.username) db.users ≡ some u = ground (arith, g') in
    (
      u,
      g,
      w,
      refl,
      identity-user false u.api_token u db (web_of p) n e (ap (λ o. get_or o false) k)
          (token_finds u db d found active),
    )

-- every token is a text, and none is also an API key
abbrev pub IsProperToken : Store → User → Type 0
IsProperToken db u = ((u.api_token == "") ≡ false) × (has_api_key false u.api_token db ≡ some false)

login_reply-IsLogin :
    (digest : String → String) (username password : String) (db : Store) (p : Panel)
    → p.server.store ≡ some db
    → Distinct token_of db.users
    → All (IsProperToken db) db.users
    → (v : Option User × Bool) → verify_user_password digest false username password db ≡ v
    → (login_reply v p ≡ refuse 401 p) ⊎ IsLogin digest username password db p (login_reply v p)
unfolding login_reply
login_reply-IsLogin digest username password db p e d t (none, ok) h = inl refl
login_reply-IsLogin digest username password db p e d t (some u, false) h = inl refl
login_reply-IsLogin digest username password db p e d t (some u, true) h =
    let (g, w, same, active) = accepted digest username password u db h in
    let (n, k) =
      All-find (IsProperToken db) (is_user username) db.users u t (found_row username u db g) in
    inr (logged_in digest username password u db p e d n k h)

login_user-IsLogin :
    (digest : String → String) (username password : String) (db : Store) (p : Panel)
    → p.server.store ≡ some db
    → Distinct token_of db.users
    → All (IsProperToken db) db.users
    → let r = login_user digest false (some (username, password)) db p in
      (r ≡ refuse 400 p) ⊎ ((r ≡ refuse 401 p) ⊎ IsLogin digest username password db p r)
unfolding login_user
login_user-IsLogin digest username password db p e d t =
    elim (Bool-cases (username == "" || password == "")) [
      | inl q ↦ inl (rw (q, login_user) refl)
      | inr q ↦
          rw (q, login_user)
            (inr (
              login_reply-IsLogin digest username password db p e d t
                (verify_user_password digest false username password db) refl))
    ]

-- A login through the API, with a database that answers, is refused with status 400 or 401, or it tells
-- the name, the role and the token of a user of that name with that password, and the token then
-- identifies exactly this user. Tokens are unique, not empty and not API keys.
pub v1_handle_login-IsLogin :
    (digest : String → String) (username password : String) (db : Store) (p : Panel)
    → p.server.store ≡ some db
    → Distinct token_of db.users
    → All (IsProperToken db) db.users
    → let r = v1_handle_login digest false (some (username, password)) p in
      (r ≡ refuse 400 p) ⊎ ((r ≡ refuse 401 p) ⊎ IsLogin digest username password db p r)
unfolding v1_handle_login
v1_handle_login-IsLogin digest username password db p e d t =
    subst (λ r. (r ≡ refuse 400 p) ⊎ ((r ≡ refuse 401 p) ⊎ IsLogin digest username password db p r))
      (sym
        (with_store-some db p (λ db'. login_user digest false (some (username, password)) db' p) e))
      (login_user-IsLogin digest username password db p e d t)
