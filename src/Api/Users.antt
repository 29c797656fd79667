-- ===== src/Api/Users.antt =====
-- pkg/web/server.go: v1HandleUsers, v1HandleUserPath and v1HandleLogin. `digest` is the hash of the
-- database; the time and the texts that randomHex returns are arguments.
use nexus_link.Base.{String}
use nexus_link.Base.{
  Bool, true, false, not, ◌&&◌, ◌||◌, Option, none, some, List, [], ◌∷◌, if◌then◌else◌,
}
use nexus_link.Base.{◌==◌, Eq-nat, Eq-string, Eq-bytes, Eq-pair}
use nexus_link.Store.Tables.{User, Store}
use nexus_link.Store.Users.{
  list_users, get_user, delete_user, set_user_status, reset_user_token, create_user,
  update_user_password, verify_user_password,
}
use nexus_link.Web.Access.{ApiIdentity}
use nexus_link.Api.State.{
  with_store, Panel, put_store, Method, http_get, http_post, http_delete, nothing, user_list,
  one_user, new_token, identity, Reply, answer, refuse, Faults,
}

pub record Fresh : Type 0 where
  pub now : String
  pub salt : String
  pub token : String

pub record UserRequest : Type 0 where
  pub username : String
  pub password : String
  pub role : String

-- the answer to a call that reports whether a user was there
unfoldable pub if_changed : Option Bool × Store → Panel → Reply
if_changed (some true, db) p = answer nothing (put_store db p)
if_changed (some false, db) p = refuse 404 (put_store db p)
if_changed (none, db) p = refuse 404 p

-- the answer to a call that gives a token and reports whether the user was there
unfoldable pub if_reset : Option (String × Bool) × Store → Panel → Reply
if_reset (some (token, true), db) p = answer (new_token token) (put_store db p)
if_reset (some (token, false), db) p = refuse 404 (put_store db p)
if_reset (none, db) p = refuse 404 p

unfoldable pub reset_token : Faults → Fresh → String → Store → Panel → Reply
unfolding if_reset reset_user_token
reset_token f new username db p =
    if_reset (reset_user_token f.write new.now new.token username db) p

-- disable and enable
unfoldable pub switch_user : Faults → Fresh → ApiIdentity → String → String → Store → Panel → Reply
unfolding if_changed set_user_status
switch_user f new id action username db p =
    if id.admin
    then if_changed
        (set_user_status f.write new.now username
          (if action == "disable" then "disabled" else "active") db)
        p
    else refuse 403 p

-- the details of a user
unfoldable pub show_user : Option (Option User) → Panel → Reply
show_user (some (some u)) p = answer (one_user u) p
show_user (some none) p = refuse 404 p
show_user none p = refuse 404 p

unfoldable pub user_by_method : Faults → ApiIdentity → Method → String → Store → Panel → Reply
unfolding get_user show_user if_changed delete_user
user_by_method f id method username db p = elim method [
  | http_get ↦ show_user (get_user f.read username db) p
  | http_delete ↦ if id.admin then if_changed (delete_user f.write username db) p else refuse 403 p
  | _ ↦ refuse 405 p
]

-- the answer to a check of a password
unfoldable pub login_reply : Option User × Bool → Panel → Reply
login_reply (some u, true) p = answer (identity u.username u.role u.api_token) p
login_reply (some u, false) p = refuse 401 p
login_reply (none, ok) p = refuse 401 p

module _ (digest : String → String) where
  unfoldable pub post_user : Faults → Fresh → UserRequest → Store → Panel → Reply
  unfolding create_user
  post_user f new r db p =
      let role = if r.role == "" then "user" else r.role in
      if r.username == "" || r.password == ""
      then refuse 400 p
      else if not (role == "user") && not (role == "admin")
      then refuse 400 p
      else let (created, db') =
          create_user digest f.write new.now new.salt new.token r.username r.password role db in
        elim created [ none ↦ refuse 409 p | some u ↦ answer (one_user u) (put_store db' p) ]

  unfoldable pub v1_handle_users :
      Faults → Fresh → ApiIdentity → Method → Option UserRequest → Panel → Reply
  unfolding post_user list_users with_store
  v1_handle_users f new id method body p =
      if not id.admin
      then refuse 403 p
      else with_store p (λ db. elim method [
        | http_get ↦ elim (list_users f.list db) [
          | none ↦ refuse 500 p
          | some us ↦ answer (user_list us) p
        ]
        | http_post ↦ elim body [ none ↦ refuse 400 p | some r ↦ post_user f new r db p ]
        | _ ↦ refuse 405 p
      ])

  unfoldable pub change_password : Faults → Fresh → String → Option String → Store → Panel → Reply
  unfolding if_changed update_user_password
  change_password f new username body db p = elim body [
    | none ↦ refuse 400 p
    | some password ↦
        if password == ""
        then refuse 400 p
        else if_changed (update_user_password digest f.write new.now new.salt username password db)
            p
  ]

  -- the part after the name
  unfoldable pub act_on_user :
      Faults → Fresh → ApiIdentity → String → String → Option String → Store → Panel → Reply
  unfolding reset_token change_password switch_user
  act_on_user f new id username action body db p =
      if action == "reset-token"
      then reset_token f new username db p
      else if action == "password"
      then change_password f new username body db p
      else if action == "disable" || action == "enable"
      then switch_user f new id action username db p
      else refuse 400 p

  unfoldable pub on_user :
      Faults
      → Fresh
      → ApiIdentity
      → Method
      → String
      → List String
      → Option String
      → Store
      → Panel
      → Reply
  unfolding act_on_user user_by_method
  on_user f new id method username [] body db p = user_by_method f id method username db p
  on_user f new id method username (action ∷ more) body db p = elim method [
    | http_post ↦ act_on_user f new id username action body db p
    | _ ↦ refuse 405 p
  ]

  unfoldable pub v1_handle_user_path :
      Faults → Fresh → ApiIdentity → Method → List String → Option String → Panel → Reply
  unfolding on_user
  v1_handle_user_path f new id method [] body p = refuse 400 p
  v1_handle_user_path f new id method (username ∷ more) body p =
      if username == ""
      then refuse 400 p
      else if not id.admin && not (id.username == username)
      then refuse 403 p
      else with_store p (λ db. on_user f new id method username more body db p)

  unfoldable pub login_user : Bool → Option (String × String) → Store → Panel → Reply
  unfolding login_reply
  login_user fault none db p = refuse 400 p
  login_user fault (some (username, password)) db p =
      if username == "" || password == ""
      then refuse 400 p
      else login_reply (verify_user_password digest fault username password db) p

  unfoldable pub v1_handle_login : Bool → Option (String × String) → Panel → Reply
  unfolding login_user with_store
  v1_handle_login fault body p = with_store p (λ db. login_user fault body db p)
