-- ===== src/Server/Reseed.antt =====
-- A start after a start: both loops leave the database as it is.
use nexus_link.Base.{String, ◌≡◌, refl, sym, ap, ◌∙◌, inl, inr}
use nexus_link.Base.{Bool, true, false, ◌||◌, List, [], ◌∷◌, ◌++◌, arith}
use nexus_link.Base.{Bool-cases, ◌==◌, Eq-nat, Eq-string, Eq-bytes, Eq-pair, ==_refl}
use nexus_link.Base.{All}
use nexus_link.Base.Dict.{is_some, get_or}
use mathlib.Core.Path.{subst}
use nexus_link.Base.Tables.{find}
use nexus_link.Base.Rows.{is_some-find-append}
use nexus_link.Store.Tables.{ApiKey, Store}
use nexus_link.Store.Clients.{has_name, has_token}
use nexus_link.Store.Keys.{is_key, has_api_key, add_api_key}
use nexus_link.Server.State.{ManagedClient}
use nexus_link.Server.Startup.{Driver, seed_client, seed_clients, seed_key, seed_keys, seed}
use nexus_link.Server.Restart.{
  works, IsSeeded, Grown-seed_client, IsSeeded-Grown, IsSeeded-seed_client, seed_client-IsSeeded,
}

kept-IsSeeded :
    (now : String) (driver : Driver) (cs : List ManagedClient) (c : ManagedClient) (db : Store)
    → IsSeeded db c
    → IsSeeded (seed_clients now driver cs db) c
unfolding seed_clients
kept-IsSeeded now driver [] c db h = h
kept-IsSeeded now driver (x ∷ cs) c db h =
    kept-IsSeeded now driver cs c (seed_client now driver x db)
      (IsSeeded-Grown c db (Grown-seed_client now driver x db) h)

All-IsSeeded :
    (now : String) (cs : List ManagedClient) (db : Store)
    → All (IsSeeded (seed_clients now works cs db)) cs
unfolding seed_clients
All-IsSeeded now [] db = tt
All-IsSeeded now (c ∷ cs) db = (
  kept-IsSeeded now works cs c (seed_client now works c db) (IsSeeded-seed_client now c db),
  All-IsSeeded now cs (seed_client now works c db),
)

seed_clients_same :
    (now : String) (driver : Driver) (cs : List ManagedClient) (db : Store)
    → All (IsSeeded db) cs
    → seed_clients now driver cs db ≡ db
unfolding seed_clients
seed_clients_same now driver [] db h = refl
seed_clients_same now driver (c ∷ cs) db (h, hs) =
    ap (seed_clients now driver cs) (seed_client-IsSeeded now driver c db h)
    ∙ seed_clients_same now driver cs db hs

-- a key that a start leaves alone
abbrev IsKnown : Store → String → Type 0
IsKnown db k = (k == "" || is_some (find (is_key k) db.api_keys)) ≡ true

-- the keys are as they were, or there is one more
data Extended (db : Store) : Store → Type 0 where
  same : Extended db db
  more : (row : ApiKey) → Extended db (record db { api_keys = db.api_keys ++ (row ∷ []) })

abbrev key_row : String → String → ApiKey
key_row now key = record { key = key; note = "config seed"; created_at = now }

Extended-add :
    (fault : Bool) (now key : String) (db : Store)
    → Extended db (add_api_key fault now key "config seed" db).1
unfolding add_api_key
Extended-add fault now key db =
    elim (Bool-cases (fault || is_some (find (is_key key) db.api_keys))) [
      | inl q ↦ rw (q, add_api_key) same
      | inr q ↦ rw (q, add_api_key) (more (key_row now key))
    ]

Extended-seed_key :
    (now : String) (driver : Driver) (key : String) (db : Store)
    → Extended db (seed_key now driver key db)
unfolding seed_key
Extended-seed_key now driver key db = elim (Bool-cases (key == "")) [
  | inl q ↦ rw (q, seed_key) same
  | inr q ↦
      rw (q, seed_key)
        (elim (Bool-cases (get_or (has_api_key (driver key).0 key db) false)) [
          | inl r ↦ rw (r, seed_key) same
          | inr r ↦ rw (r, seed_key) (Extended-add (driver key).1 now key db)
        ])
]

clients-Extended : (db : Store) {db' : Store} → Extended db db' → db'.clients ≡ db.clients
clients-Extended db same = refl
clients-Extended db (more row) = refl

IsKnown-Extended :
    (k : String) (db : Store) {db' : Store} → Extended db db' → IsKnown db k → IsKnown db' k
IsKnown-Extended k db same h = h
IsKnown-Extended k db (more row) h =
    ground (arith, h, is_some-find-append (is_key k) db.api_keys row)

IsKnown-seed_key : (now key : String) (db : Store) → IsKnown (seed_key now works key db) key
unfolding seed_key has_api_key add_api_key
IsKnown-seed_key now key db = elim (Bool-cases (key == "")) [
  | inl q ↦
      let told : seed_key now works key db ≡ db = rw (q, seed_key) refl in
      subst (λ x. IsKnown x key) (sym told) (ground (arith, q))
  | inr q ↦ elim (Bool-cases (is_some (find (is_key key) db.api_keys))) [
    | inl r ↦
        let told : seed_key now works key db ≡ db = rw (q, r, seed_key) refl in
        subst (λ x. IsKnown x key) (sym told) (ground (arith, r))
    | inr r ↦
        let told : seed_key now works key db
            ≡ record db { api_keys = db.api_keys ++ (key_row now key ∷ []) } =
          rw (q, r, seed_key) refl in
        subst (λ x. IsKnown x key) (sym told)
          (ground
            (arith, is_some-find-append (is_key key) db.api_keys (key_row now key), ==_refl key))
  ]
]

seed_key_same :
    (now : String) (driver : Driver) (key : String) (db : Store)
    → IsKnown db key
    → seed_key now driver key db ≡ db
unfolding seed_key add_api_key
seed_key_same now driver key db h = elim (Bool-cases (key == "")) [
  | inl q ↦ rw (q, seed_key) refl
  | inr q ↦
      let known : ((driver key).1 || is_some (find (is_key key) db.api_keys)) ≡ true =
        ground (arith, h, q) in
      rw (q, seed_key)
        (elim (Bool-cases (get_or (has_api_key (driver key).0 key db) false)) [
          | inl r ↦ rw (r, seed_key) refl
          | inr r ↦ rw (r, seed_key) (rw (known, add_api_key) refl)
        ])
]

kept-IsKnown :
    (now : String) (driver : Driver) (ks : List String) (k : String) (db : Store)
    → IsKnown db k
    → IsKnown (seed_keys now driver ks db) k
unfolding seed_keys
kept-IsKnown now driver [] k db h = h
kept-IsKnown now driver (x ∷ ks) k db h =
    kept-IsKnown now driver ks k (seed_key now driver x db)
      (IsKnown-Extended k db (Extended-seed_key now driver x db) h)

All-IsKnown :
    (now : String) (ks : List String) (db : Store) → All (IsKnown (seed_keys now works ks db)) ks
unfolding seed_keys
All-IsKnown now [] db = tt
All-IsKnown now (k ∷ ks) db = (
  kept-IsKnown now works ks k (seed_key now works k db) (IsKnown-seed_key now k db),
  All-IsKnown now ks (seed_key now works k db),
)

seed_keys_same :
    (now : String) (driver : Driver) (ks : List String) (db : Store)
    → All (IsKnown db) ks
    → seed_keys now driver ks db ≡ db
unfolding seed_keys
seed_keys_same now driver [] db h = refl
seed_keys_same now driver (k ∷ ks) db (h, hs) =
    ap (seed_keys now driver ks) (seed_key_same now driver k db h)
    ∙ seed_keys_same now driver ks db hs

clients-seed_keys :
    (now : String) (driver : Driver) (ks : List String) (db : Store)
    → (seed_keys now driver ks db).clients ≡ db.clients
unfolding seed_keys
clients-seed_keys now driver [] db = refl
clients-seed_keys now driver (k ∷ ks) db =
    clients-seed_keys now driver ks (seed_key now driver k db)
    ∙ clients-Extended db (Extended-seed_key now driver k db)

-- the keys do not matter for the clients
All-IsSeeded_clients :
    (db db' : Store) (cs : List ManagedClient)
    → db'.clients ≡ db.clients
    → All (IsSeeded db) cs
    → All (IsSeeded db') cs
All-IsSeeded_clients db db' [] e h = tt
All-IsSeeded_clients db db' (c ∷ cs) e (h, hs) = (
  subst
      (λ xs.
        (c.name == ""
          || c.token == ""
          || is_some (find (has_name c.name) xs)
          || is_some (find (has_token c.token) xs))
        ≡ true)
      (sym e) h,
  All-IsSeeded_clients db db' cs e hs,
)

-- Once a server has started with a database that works, a later start with the same clients and keys in
-- its configuration leaves the database as it is, whatever the clock says and whichever queries fail.
pub seed-seed :
    (now later : String) (driver : Driver) (cs : List ManagedClient) (ks : List String) (db : Store)
    → seed later driver cs ks (seed now works cs ks db) ≡ seed now works cs ks db
unfolding seed
seed-seed now later driver cs ks db =
    let a = seed_clients now works cs db in
    let b = seed_keys now works ks a in
    ap (seed_keys later driver ks) (
      seed_clients_same later driver cs b
        (All-IsSeeded_clients a b cs (clients-seed_keys now works ks a) (All-IsSeeded now cs db)))
    ∙ seed_keys_same later driver ks b (All-IsKnown now ks a)
