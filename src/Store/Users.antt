-- ===== src/Store/Users.antt =====
-- pkg/store/store.go: the operations on users. `digest` stands for hex.EncodeToString of sha256.Sum256;
-- the texts that randomHex returns are arguments.
use nexus_link.Base.{◌+◌, String}
use nexus_link.Base.{
  Bool, false, not, ◌&&◌, ◌||◌, Option, none, some, List, [], ◌∷◌, ◌++◌, if◌then◌else◌,
}
use nexus_link.Base.{◌==◌, Eq-nat, Eq-string, Eq-bytes}
use nexus_link.Base.Dict.{is_some}
use nexus_link.Base.Tables.{find, update, delete}
use nexus_link.Store.Tables.{User, Store}

abbrev pub is_user : String → User → Bool
is_user username u = u.username == username

unfoldable pub append_text : String → String → String
append_text String.[] t = t
append_text (String.◌∷◌ c s) t = String.◌∷◌ c (append_text s t)

unfoldable pub hash_password : (String → String) → String → String → String
unfolding append_text
hash_password digest password salt = digest (append_text salt password)

unfoldable pub list_users : Bool → Store → Option (List User)
list_users fault s = if fault then none else some s.users

unfoldable pub get_user : Bool → String → Store → Option (Option User)
get_user fault username s = if fault then none else some (find (is_user username) s.users)

unfoldable pub get_user_by_token : Bool → String → Store → Option (Option User)
get_user_by_token fault token s =
    if fault then none else some (find (λ u. u.api_token == token && u.status == "active") s.users)

unfoldable pub delete_user : Bool → String → Store → Option Bool × Store
delete_user fault username s = if fault then (none, s) else (
  some (is_some (find (is_user username) s.users)),
  record s { users = delete (is_user username) s.users },
)

unfoldable pub set_user_status : Bool → String → String → String → Store → Option Bool × Store
set_user_status fault now username status s = if fault then (none, s) else (
  some (is_some (find (is_user username) s.users)),
  record s {
    users = update (is_user username) (λ u. record u { status = status; updated_at = now }) s.users;
  },
)

-- an update that would make two tokens equal is refused by the database
unfoldable pub reset_user_token :
    Bool → String → String → String → Store → Option (String × Bool) × Store
reset_user_token fault now token username s =
    let exists = is_some (find (is_user username) s.users) in
    let clash = is_some (find (λ u. u.api_token == token && not (is_user username u)) s.users) in
    if fault || exists && clash then (none, s) else (
      some (token, exists),
      record s {
        users =
            update (is_user username) (λ u. record u { api_token = token; updated_at = now })
              s.users;
      },
    )

module _ (digest : String → String) where
  unfoldable pub create_user :
      Bool → String → String → String → String → String → String → Store → Option User × Store
  unfolding hash_password
  create_user fault now salt token username password role s =
      let u : User = record {
        id = 0;
        username = username;
        password_hash = hash_password digest password salt;
        password_salt = salt;
        role = role;
        api_token = token;
        status = "active";
        created_at = now;
        updated_at = now;
      } in
      if fault
        || is_some (find (is_user username) s.users)
        || is_some (find (λ v. v.api_token == token) s.users)
      then (none, s)
      else (
        some u,
        record s {
          users = s.users ++ (record u { id = s.user_seq + 1 } ∷ []);
          user_seq = s.user_seq + 1;
        },
      )

  unfoldable pub update_user_password :
      Bool → String → String → String → String → Store → Option Bool × Store
  unfolding hash_password
  update_user_password fault now salt username password s = if fault then (none, s) else (
    some (is_some (find (is_user username) s.users)),
    record s {
      users =
          update (is_user username)
            (λ u. record u {
              password_hash = hash_password digest password salt;
              password_salt = salt;
              updated_at = now;
            })
            s.users;
    },
  )

  -- the user that was found, and whether the password is that of the user
  unfoldable pub verify_user_password : Bool → String → String → Store → Option User × Bool
  unfolding get_user hash_password
  verify_user_password fault username password s = elim (get_user fault username s) [
    | none ↦ (none, false)
    | some none ↦ (none, false)
    | some (some u) ↦
        if not (u.status == "active")
        then (none, false)
        else (some u, hash_password digest password u.password_salt == u.password_hash)
  ]
