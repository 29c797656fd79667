-- ===== src/Api/Accounts.antt =====
-- What a user can do to the accounts: nothing, beside a change of the user's own password and token.
use nexus_link.Base.{ℕ, String, ◌≡◌, refl, sym, ap, inl, inr}
use nexus_link.Base.{
  Bool, true, false, not, ◌&&◌, ◌||◌, Option, none, some, List, [], ◌∷◌, map, arith,
}
use nexus_link.Base.{Bool-cases, ◌==◌, Eq-nat, Eq-string, Eq-bytes, Eq-pair}
use mathlib.Core.Path.{subst}
use nexus_link.Base.Dict.{is_some}
use nexus_link.Base.Tables.{find, update}
use nexus_link.Base.Rows.{find-update_other, map-update}
use nexus_link.Store.Tables.{User, Store}
use nexus_link.Store.Users.{is_user, get_user, reset_user_token, update_user_password}
use nexus_link.Web.Access.{ApiIdentity}
use nexus_link.Api.State.{
  with_store, with_store-some, Panel, Method, http_get, http_post, http_patch, http_delete,
  http_other, Reply, Faults, refuse,
}
use nexus_link.Api.Users.{
  if_reset, show_user, Fresh, if_changed, reset_token, switch_user, change_password, act_on_user,
  user_by_method, on_user, v1_handle_user_path,
}

-- what makes an account: its name, its role and its status
abbrev pub standing : User → String × (String × String)
standing u = (u.username, (u.role, u.status))

-- of the database only the users differ, of the users only one, and that one not in its standing
pub record OnlyOwn (username : String) (before after : Store) : Type 0 where
  pub rest_same : after ≡ record before { users = after.users }
  pub standing_same : map standing after.users ≡ map standing before.users
  pub others_same :
      (other : String)
      → (username == other) ≡ false
      → find (is_user other) after.users ≡ find (is_user other) before.users

OnlyOwn-refl : (username : String) (db : Store) → OnlyOwn username db db
OnlyOwn-refl username db = record {
  rest_same = refl;
  standing_same = refl;
  others_same = λ other n. refl;
}

not_other :
    (username other : String) (u : User)
    → (username == other) ≡ false
    → is_user username u ≡ true
    → is_user other u ≡ false
not_other username other u n h = ground (
  arith,
  n,
  h,
  Eq-string.same_iff u.username username,
  Eq-string.same_iff u.username other,
  Eq-string.same_iff username other,
)

OnlyOwn-update :
    (username : String) (f : User → User) (db : Store)
    → ((u : User) → standing (f u) ≡ standing u)
    → OnlyOwn username db (record db { users = update (is_user username) f db.users })
OnlyOwn-update username f db h = record {
  rest_same = refl;
  standing_same = map-update standing (is_user username) f db.users h;
  others_same = λ other n.
      find-update_other (is_user username) (is_user other) f db.users
        (λ u. ap (λ (k : String × (String × String)). k.0 == other) (h u))
        (λ u e. not_other username other u n e);
}

-- a reply after which no more has happened than the caller may do
abbrev Harmless : String → Store → Reply → Type 0
Harmless username db r =
    (after : Store) × (r.1.1.server.store ≡ some after) × OnlyOwn username db after

refuse-Harmless :
    (username : String) (db : Store) (status : ℕ) (p : Panel)
    → p.server.store ≡ some db
    → Harmless username db (refuse status p)
refuse-Harmless username db status p e = (db, e, OnlyOwn-refl username db)

with_store-Harmless :
    (username : String) (db : Store) (p : Panel) (use_it : Store → Reply)
    → p.server.store ≡ some db
    → Harmless username db (use_it db)
    → Harmless username db (with_store p use_it)
with_store-Harmless username db p use_it e h =
    subst (λ r. Harmless username db r) (sym (with_store-some db p use_it e)) h

if_changed-Harmless :
    (username : String) (db : Store) (p : Panel) (r : Option Bool × Store)
    → p.server.store ≡ some db
    → OnlyOwn username db r.1
    → Harmless username db (if_changed r p)
unfolding if_changed
if_changed-Harmless username db p (some true, after) e o = (after, refl, o)
if_changed-Harmless username db p (some false, after) e o = (after, refl, o)
if_changed-Harmless username db p (none, after) e o = refuse-Harmless username db 404 p e

if_reset-Harmless :
    (username : String) (db : Store) (p : Panel) (r : Option (String × Bool) × Store)
    → p.server.store ≡ some db
    → OnlyOwn username db r.1
    → Harmless username db (if_reset r p)
unfolding if_reset
if_reset-Harmless username db p (some (token, true), after) e o = (after, refl, o)
if_reset-Harmless username db p (some (token, false), after) e o = (after, refl, o)
if_reset-Harmless username db p (none, after) e o = refuse-Harmless username db 404 p e

reset_user_token-OnlyOwn :
    (fault : Bool) (now token username : String) (db : Store)
    → OnlyOwn username db (reset_user_token fault now token username db).1
unfolding reset_user_token
reset_user_token-OnlyOwn fault now token username db =
    let exists = is_some (find (is_user username) db.users) in
    let clash = is_some (find (λ u. u.api_token == token && not (is_user username u)) db.users) in
    elim (Bool-cases (fault || exists && clash)) [
      | inl q ↦ rw (q, reset_user_token) (OnlyOwn-refl username db)
      | inr q ↦ rw (q, reset_user_token) (OnlyOwn-update username _ db (λ u. refl))
    ]

reset_token-Harmless :
    (f : Faults) (new : Fresh) (username : String) (db : Store) (p : Panel)
    → p.server.store ≡ some db
    → Harmless username db (reset_token f new username db p)
unfolding reset_token
reset_token-Harmless f new username db p e =
    if_reset-Harmless username db p _ e
      (reset_user_token-OnlyOwn f.write new.now new.token username db)

show_user-Harmless :
    (username : String) (db : Store) (o : Option (Option User)) (p : Panel)
    → p.server.store ≡ some db
    → Harmless username db (show_user o p)
unfolding show_user
show_user-Harmless username db (some (some u)) p e = (db, e, OnlyOwn-refl username db)
show_user-Harmless username db (some none) p e = refuse-Harmless username db 404 p e
show_user-Harmless username db none p e = refuse-Harmless username db 404 p e

user_by_method-Harmless :
    (f : Faults) (id : ApiIdentity) (method : Method) (username : String) (db : Store) (p : Panel)
    → id.admin ≡ false
    → p.server.store ≡ some db
    → Harmless username db (user_by_method f id method username db p)
unfolding user_by_method
user_by_method-Harmless f id http_get username db p a e =
    show_user-Harmless username db (get_user f.read username db) p e
user_by_method-Harmless f id http_post username db p a e = refuse-Harmless username db 405 p e
user_by_method-Harmless f id http_patch username db p a e = refuse-Harmless username db 405 p e
user_by_method-Harmless f id http_delete username db p a e =
    rw a (refuse-Harmless username db 403 p e)
user_by_method-Harmless f id http_other username db p a e = refuse-Harmless username db 405 p e

module _ (digest : String → String) where
  update_user_password-OnlyOwn :
      (fault : Bool) (now salt username password : String) (db : Store)
      → OnlyOwn username db (update_user_password digest fault now salt username password db).1
  unfolding update_user_password
  update_user_password-OnlyOwn true now salt username password db = OnlyOwn-refl username db
  update_user_password-OnlyOwn false now salt username password db =
      OnlyOwn-update username _ db (λ u. refl)

  change_password-Harmless :
      (f : Faults) (new : Fresh) (username : String) (body : Option String) (db : Store) (p : Panel)
      → p.server.store ≡ some db
      → Harmless username db (change_password digest f new username body db p)
  unfolding change_password
  change_password-Harmless f new username none db p e = refuse-Harmless username db 400 p e
  change_password-Harmless f new username (some password) db p e =
      elim (Bool-cases (password == "")) [
        | inl q ↦ rw q (refuse-Harmless username db 400 p e)
        | inr q ↦ rw q (
            if_changed-Harmless username db p _ e
              (update_user_password-OnlyOwn f.write new.now new.salt username password db))
      ]

  act_on_user-Harmless :
      (f : Faults) (new : Fresh) (id : ApiIdentity) (username action : String)
      (body : Option String) (db : Store) (p : Panel)
      → id.admin ≡ false
      → p.server.store ≡ some db
      → Harmless username db (act_on_user digest f new id username action body db p)
  unfolding act_on_user switch_user
  act_on_user-Harmless f new id username action body db p a e =
      elim (Bool-cases (action == "reset-token")) [
        | inl q ↦ rw q (reset_token-Harmless f new username db p e)
        | inr q ↦ elim (Bool-cases (action == "password")) [
          | inl r ↦ rw (q, r) (change_password-Harmless f new username body db p e)
          | inr r ↦ elim (Bool-cases (action == "disable" || action == "enable")) [
            | inl t ↦ rw (q, r, t, a) (refuse-Harmless username db 403 p e)
            | inr t ↦ rw (q, r, t) (refuse-Harmless username db 400 p e)
          ]
        ]
      ]

  on_user-Harmless :
      (f : Faults) (new : Fresh) (id : ApiIdentity) (method : Method) (username : String)
      (more : List String) (body : Option String) (db : Store) (p : Panel)
      → id.admin ≡ false
      → p.server.store ≡ some db
      → Harmless username db (on_user digest f new id method username more body db p)
  unfolding on_user
  on_user-Harmless f new id method username [] body db p a e =
      user_by_method-Harmless f id method username db p a e
  on_user-Harmless f new id http_post username (action ∷ more) body db p a e =
      act_on_user-Harmless f new id username action body db p a e
  on_user-Harmless f new id http_get username (action ∷ more) body db p a e =
      refuse-Harmless username db 405 p e
  on_user-Harmless f new id http_patch username (action ∷ more) body db p a e =
      refuse-Harmless username db 405 p e
  on_user-Harmless f new id http_delete username (action ∷ more) body db p a e =
      refuse-Harmless username db 405 p e
  on_user-Harmless f new id http_other username (action ∷ more) body db p a e =
      refuse-Harmless username db 405 p e

  -- A request of a user to the path of an account, whatever its method, path and body and whichever
  -- calls of the database fail, changes nothing in the database beside the row of that user, and
  -- neither the name, nor the role, nor the status in it.
  pub v1_handle_user_path-OnlyOwn :
      (f : Faults) (new : Fresh) (id : ApiIdentity) (method : Method) (parts : List String)
      (body : Option String) (db : Store) (p : Panel)
      → id.admin ≡ false
      → p.server.store ≡ some db
      → (after : Store) × ((v1_handle_user_path digest f new id method parts body
            p).1.1.server.store
          ≡ some after)
        × OnlyOwn id.username db after
  unfolding v1_handle_user_path
  v1_handle_user_path-OnlyOwn f new id method [] body db p a e =
      refuse-Harmless id.username db 400 p e
  v1_handle_user_path-OnlyOwn f new id method (username ∷ more) body db p a e =
      elim (Bool-cases (username == "")) [
        | inl q ↦ rw (q, v1_handle_user_path) (refuse-Harmless id.username db 400 p e)
        | inr q ↦ elim (Bool-cases (not id.admin && not (id.username == username))) [
          | inl r ↦ rw (q, r, v1_handle_user_path) (refuse-Harmless id.username db 403 p e)
          | inr r ↦
              let own : id.username ≡ username =
                (Eq-string.same_iff id.username username).0 (ground (arith, a, r)) in
              let run : Store → Reply =
                λ db'. on_user digest f new id method username more body db' p in
              rw (q, r, v1_handle_user_path)
                (subst (λ name. Harmless name db (with_store p run)) (sym own)
                  (with_store-Harmless username db p run e
                    (on_user-Harmless f new id method username more body db p a e)))
        ]
      ]
