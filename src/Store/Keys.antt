-- ===== src/Store/Keys.antt =====
-- pkg/store/store.go: API keys and settings.
use nexus_link.Base.{String}
use nexus_link.Base.{Bool, ◌||◌, Option, none, some, [], ◌∷◌, ◌++◌, if◌then◌else◌}
use nexus_link.Base.{◌==◌, Eq-nat, Eq-string, Eq-bytes}
use nexus_link.Base.Dict.{is_some, lookup, insert}
use nexus_link.Base.Tables.{find, delete}
use nexus_link.Store.Tables.{ApiKey, Store}

abbrev pub is_key : String → ApiKey → Bool
is_key key k = k.key == key

unfoldable pub add_api_key : Bool → String → String → String → Store → Option (Unit {0}) × Store
add_api_key fault now key note s =
    if fault || is_some (find (is_key key) s.api_keys) then (none, s) else (
      some tt,
      record s {
        api_keys = s.api_keys ++ (record { key = key; note = note; created_at = now } ∷ []);
      },
    )

unfoldable pub delete_api_key : Bool → String → Store → Option Bool × Store
delete_api_key fault key s = if fault then (none, s) else (
  some (is_some (find (is_key key) s.api_keys)),
  record s { api_keys = delete (is_key key) s.api_keys },
)

unfoldable pub has_api_key : Bool → String → Store → Option Bool
has_api_key fault key s = if fault then none else some (is_some (find (is_key key) s.api_keys))

unfoldable pub get_setting : Bool → String → Store → Option (Option String)
get_setting fault key s = if fault then none else some (lookup key s.settings)

unfoldable pub set_setting : Bool → String → String → Store → Option (Unit {0}) × Store
set_setting fault key value s =
    if fault then (none, s) else (some tt, record s { settings = insert key value s.settings })
