-- ===== src/Store/Login.antt =====
-- Users: which passwords and which tokens are accepted after the calls that change them.
use nexus_link.Base.{◌+◌, String, ◌≡◌, refl, ◌↔◌, inl, inr}
use nexus_link.Base.{Bool, true, false, ◌&&◌, ◌||◌, none, some, arith}
use nexus_link.Base.{Option-cases, ◌==◌, Eq-nat, Eq-string, Eq-bytes, Eq-pair, ==_refl}
use nexus_link.Base.Dict.{is_some}
use nexus_link.Base.Tables.{find, find-append_none, find-and_none, find_holds, find-update}
use nexus_link.Store.Tables.{User, Store}
use nexus_link.Store.Users.{
  is_user, hash_password, get_user, get_user_by_token, create_user, set_user_status,
  update_user_password, verify_user_password,
}

abbrev pub token_of : User → String
token_of u = u.api_token

-- A user that is switched to another status than "active" is not logged in with any password.
pub verify-set_user_status :
    (digest : String → String) (now username status password : String) (s : Store)
    → (status == "active") ≡ false
    → verify_user_password digest false username password
        (set_user_status false now username status s).1
      ≡ (none, false)
unfolding verify_user_password get_user set_user_status
verify-set_user_status digest now username status password s h =
    let f : User → User = λ u. record u { status = status; updated_at = now } in
    let after = find-update (is_user username) (is_user username) f s.users (λ u. refl) in
    elim (Option-cases (find (is_user username) s.users)) [
      | inr e ↦ rw (after, verify_user_password) (rw (e, verify_user_password) refl)
      | inl (u, e) ↦
          let found : is_user username u ≡ true = find_holds (is_user username) s.users u e in
          rw (after, verify_user_password) (rw (e, verify_user_password) (rw (found, h) refl))
    ]

-- After a change of its password an active user is logged in by a password exactly when the hash of it
-- under the new salt is the hash of the new one: by the new password always, by another one only if the
-- hashes collide.
pub verify-update_user_password :
    (digest : String → String) (now salt username password attempt : String) (s : Store) (u : User)
    → find (is_user username) s.users ≡ some u
    → (u.status == "active") ≡ true
    → ((verify_user_password digest false username attempt
          (update_user_password digest false now salt username password s).1).1
        ≡ true)
      ↔ (hash_password digest attempt salt ≡ hash_password digest password salt)
unfolding verify_user_password get_user update_user_password
verify-update_user_password digest now salt username password attempt s u e a =
    let f : User → User = λ u. record u {
      password_hash = hash_password digest password salt;
      password_salt = salt;
      updated_at = now;
    } in
    let after = find-update (is_user username) (is_user username) f s.users (λ u. refl) in
    let found : is_user username u ≡ true = find_holds (is_user username) s.users u e in
    rw (after, verify_user_password)
      (rw (e, verify_user_password)
        (rw (found, a)
          (Eq-string.same_iff (hash_password digest attempt salt)
            (hash_password digest password salt))))

-- a user that is created was not there under its name or its token
created :
    (digest : String → String) (f : Bool) (now salt token username password role : String)
    (s : Store)
    → is_some (create_user digest f now salt token username password role s).0 ≡ true
    → (f
        || is_some (find (is_user username) s.users)
        || is_some (find (λ v. v.api_token == token) s.users))
      ≡ false
unfolding create_user
created digest f now salt token username password role s h = ground arith

-- A user that is created can log in with its password, and its token finds it.
pub verify-create_user :
    (digest : String → String) (f : Bool) (now salt token username password role : String)
    (s : Store)
    → is_some (create_user digest f now salt token username password role s).0 ≡ true
    → let s' = (create_user digest f now salt token username password role s).1 in
      let row : User = record {
        id = s.user_seq + 1;
        username = username;
        password_hash = hash_password digest password salt;
        password_salt = salt;
        role = role;
        api_token = token;
        status = "active";
        created_at = now;
        updated_at = now;
      } in
      (verify_user_password digest f username password s' ≡ (some row, true))
      × (get_user_by_token f token s' ≡ some (some row))
unfolding create_user verify_user_password get_user get_user_by_token
verify-create_user digest f now salt token username password role s h =
    let q = created digest f now salt token username password role s h in
    let f_false : f ≡ false = ground (arith, q) in
    let no_name : find (is_user username) s.users ≡ none = ground (arith, q) in
    let no_token : find (λ v. v.api_token == token) s.users ≡ none = ground (arith, q) in
    let active =
      find-and_none (λ v. v.api_token == token) (λ v. v.status == "active") s.users no_token in
    (
      rw (q, create_user)
          (rw (f_false, verify_user_password)
            (rw (find-append_none (is_user username) s.users _ no_name, verify_user_password)
              (rw (==_refl username, ==_refl (hash_password digest password salt)) refl))),
      rw (q, create_user)
          (rw
            (
              f_false,
              find-append_none (λ v. v.api_token == token && v.status == "active") s.users _ active,
            )
            (rw (==_refl token) refl)),
    )
