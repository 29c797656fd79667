-- ===== src/Web/Access.antt =====
-- pkg/web/server.go: apiKeyMiddleware and canAccessClient: who calls the open API, and which
-- clients the caller may see.
use nexus_link.Base.{String}
use nexus_link.Base.{Bool, true, false, Option, none, some, if◌then◌else◌}
use nexus_link.Base.{◌==◌, Eq-nat, Eq-string, Eq-bytes, Eq-pair}
use nexus_link.Base.Dict.{get_or, lookup}
use nexus_link.Store.Tables.{Store}
use nexus_link.Store.Clients.{get_client}
use nexus_link.Store.Users.{get_user_by_token}
use nexus_link.Store.Keys.{has_api_key}
use nexus_link.Web.State.{WebServer}

pub record ApiIdentity : Type 0 where
  pub admin : Bool
  pub username : String
  pub role : String

abbrev pub administrator : ApiIdentity
administrator = record { admin = true; username = ""; role = "admin" }

-- the static keys
unfoldable pub static_identity : String → WebServer → Option ApiIdentity
static_identity key ws = if get_or (lookup key ws.api_keys) false then some administrator else none

-- the keys and the tokens of the database; each query may fail, and then finds nothing
unfoldable pub stored_identity : Bool → Bool → String → Store → Option ApiIdentity
stored_identity key_fault user_fault key db =
    if get_or (has_api_key key_fault key db) false
    then some administrator
    else elim (get_or (get_user_by_token user_fault key db) none) [
      | some u ↦ some (record { admin = false; username = u.username; role = u.role })
      | none ↦ none
    ]

-- apiKeyMiddleware, on the key of the request; "" is a request without one
unfoldable pub api_identity : Bool → Bool → String → WebServer → Option ApiIdentity
unfolding stored_identity static_identity
api_identity key_fault user_fault key ws = if key == "" then none else elim ws.store [
  | none ↦ static_identity key ws
  | some db ↦ elim (stored_identity key_fault user_fault key db) [
    | some id ↦ some id
    | none ↦ static_identity key ws
  ]
]

unfoldable pub can_access_client : Bool → ApiIdentity → String → WebServer → Bool
unfolding get_client
can_access_client fault id client ws = if id.admin then true else elim ws.store [
  | none ↦ false
  | some db ↦ elim (get_or (get_client fault client db) none) [
    | some c ↦ c.owner == id.username
    | none ↦ false
  ]
]
