-- ===== src/Server/Startup.antt =====
-- cmd/server/main.go, main: the clients and keys of the configuration are put into the database,
-- and the index of managed clients is built. Each query has a fault of the driver as an argument,
-- by the name of the client or by the key.
use nexus_link.Base.{String}
use nexus_link.Base.{Bool, false, ◌||◌, Option, none, some, List, [], ◌∷◌, ltb, if◌then◌else◌}
use nexus_link.Base.{◌==◌, Eq-nat, Eq-string, Eq-bytes, Eq-pair}
use nexus_link.Base.{length}
use nexus_link.Base.Dict.{Dict, get_or, insert}
use nexus_link.Store.Tables.{Client, Store}
use nexus_link.Store.Clients.{get_client, add_client, list_clients}
use nexus_link.Store.Keys.{has_api_key, add_api_key}
use nexus_link.Server.State.{ManagedClient}
use nexus_link.Server.Identity.{managed}

-- whether the read and the write fail
abbrev pub Driver : Type 0
Driver = String → Bool × Bool

abbrev pub if_missing : Option Client → Store → Store → Store
if_missing (some _) added db = db
if_missing none added db = added

unfoldable pub seed_client : String → Driver → ManagedClient → Store → Store
unfolding get_client add_client
seed_client now driver c db =
    if c.name == "" || c.token == ""
    then db
    else if_missing (get_or (get_client (driver c.name).0 c.name db) none)
        (add_client (driver c.name).1 now c.name c.token c.max_tunnels c.max_traffic_bytes db).1 db

unfoldable pub seed_clients : String → Driver → List ManagedClient → Store → Store
unfolding seed_client
seed_clients now driver [] db = db
seed_clients now driver (c ∷ cs) db = seed_clients now driver cs (seed_client now driver c db)

unfoldable pub seed_key : String → Driver → String → Store → Store
unfolding has_api_key add_api_key
seed_key now driver key db =
    if key == ""
    then db
    else if get_or (has_api_key (driver key).0 key db) false
    then db
    else (add_api_key (driver key).1 now key "config seed" db).1

unfoldable pub seed_keys : String → Driver → List String → Store → Store
unfolding seed_key
seed_keys now driver [] db = db
seed_keys now driver (key ∷ more) db = seed_keys now driver more (seed_key now driver key db)

-- both loops
unfoldable pub seed : String → Driver → List ManagedClient → List String → Store → Store
unfolding seed_clients seed_keys
seed now driver cs ks db = seed_keys now driver ks (seed_clients now driver cs db)

-- the rows of the database, or the clients of the configuration, by their tokens
unfoldable pub index_rows : List Client → Dict String ManagedClient → Dict String ManagedClient
index_rows [] m = m
index_rows (c ∷ cs) m = index_rows cs (insert c.token (managed c) m)

unfoldable pub index_config :
    List ManagedClient → Dict String ManagedClient → Dict String ManagedClient
index_config [] m = m
index_config (c ∷ cs) m =
    index_config cs (if c.name == "" || c.token == "" then m else insert c.token c m)

unfoldable pub build_index : Bool → List ManagedClient → Option Store → Dict String ManagedClient
unfolding index_rows index_config list_clients
build_index fault cs none = index_config cs []
build_index fault cs (some db) =
    let rows = get_or (list_clients fault db) [] in
    if ltb 0 (length rows) then index_rows rows [] else index_config cs []
