-- ===== src/Api/Keys.antt =====
-- pkg/web/server.go: v1HandleAPIKeys, v1HandleAPIKeyPath and v1HandleCloseProxy. The path of a key is
-- given without its prefix and its slashes.
use nexus_link.Base.{String}
use nexus_link.Base.{Bool, true, false, Option, none, some, if◌then◌else◌}
use nexus_link.Base.{◌==◌, Eq-nat, Eq-string, Eq-bytes, Eq-pair}
use nexus_link.Base.Dict.{insert, remove}
use nexus_link.Store.Tables.{Store}
use nexus_link.Store.Keys.{add_api_key, delete_api_key}
use nexus_link.Store.Listing.{list_api_keys}
use nexus_link.Api.State.{
  with_store, Panel, put_store, Method, http_get, http_post, http_delete, nothing, key_list, Reply,
  answer, refuse, success, take_down, Faults,
}

-- the index in memory follows the database
unfoldable pub key_created : String → Option (Unit {0}) × Store → Panel → Reply
key_created key (none, db) p = refuse 409 p
key_created key (some _, db) p =
    let p' = put_store db p in
    answer nothing
      (record p' { web = record p'.web { api_keys = insert key true p'.web.api_keys } })

unfoldable pub create_key : Bool → String → String → String → Store → Panel → Reply
unfolding key_created add_api_key
create_key fault now key note db p = key_created key (add_api_key fault now key note db) p

unfoldable pub post_key : Faults → String → Option (String × String) → Store → Panel → Reply
unfolding create_key
post_key f now none db p = refuse 400 p
post_key f now (some (key, note)) db p =
    if key == "" then refuse 400 p else create_key f.write now key note db p

unfoldable pub api_keys_by_method :
    Faults → String → Method → Option (String × String) → Store → Panel → Reply
unfolding post_key list_api_keys
api_keys_by_method f now method body db p = elim method [
  | http_get ↦ elim (list_api_keys f.list db) [
    | none ↦ refuse 500 p
    | some keys ↦ answer (key_list keys) p
  ]
  | http_post ↦ post_key f now body db p
  | _ ↦ refuse 405 p
]

unfoldable pub v1_handle_api_keys :
    Faults → String → Method → Option (String × String) → Panel → Reply
unfolding api_keys_by_method with_store
v1_handle_api_keys f now method body p =
    with_store p (λ db. api_keys_by_method f now method body db p)

unfoldable pub key_deleted : String → Option Bool × Store → Panel → Reply
key_deleted key (none, db) p = refuse 500 p
key_deleted key (some false, db) p = refuse 404 (put_store db p)
key_deleted key (some true, db) p =
    let p' = put_store db p in
    answer nothing (record p' { web = record p'.web { api_keys = remove key p'.web.api_keys } })

unfoldable pub delete_key : Bool → String → Store → Panel → Reply
unfolding key_deleted delete_api_key
delete_key fault key db p = key_deleted key (delete_api_key fault key db) p

unfoldable pub v1_handle_api_key_path : Faults → Method → String → Panel → Reply
unfolding delete_key with_store
v1_handle_api_key_path f method key p = elim method [
  | http_delete ↦
      with_store p (λ db. if key == "" then refuse 400 p else delete_key f.write key db p)
  | _ ↦ refuse 405 p
]

unfoldable pub v1_handle_close_proxy : Method → Option String → Panel → Reply
unfolding take_down
v1_handle_close_proxy method body p = elim method [
  | http_post ↦ elim body [
    | none ↦ refuse 400 p
    | some name ↦
        if name == ""
        then refuse 400 p
        else let (found, after) = take_down name p in
          if found then (success nothing, after) else refuse 404 p
  ]
  | _ ↦ refuse 405 p
]
