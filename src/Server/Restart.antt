-- ===== src/Server/Restart.antt =====
-- What a second start with the same configuration does to the database.
use nexus_link.Base.{ℕ, ◌+◌, String, ◌≡◌, refl, sym, ◌∙◌, inl, inr}
use nexus_link.Base.{Bool, true, false, not, ◌||◌, Option, none, some, [], ◌∷◌, ◌++◌, arith}
use nexus_link.Base.{Bool-cases, Option-cases, ◌==◌, Eq-nat, Eq-string, Eq-bytes, Eq-pair, ==_refl}
use nexus_link.Base.Dict.{is_some, get_or}
use mathlib.Core.Path.{subst}
use nexus_link.Base.Tables.{find}
use nexus_link.Base.Rows.{is_some-find-append}
use nexus_link.Store.Tables.{Client, Store}
use nexus_link.Store.Clients.{has_name, has_token, get_client, add_client, add_client_with_owner}
use nexus_link.Server.State.{ManagedClient}
use nexus_link.Server.Startup.{Driver, if_missing, seed_client}

-- the driver does not fail
abbrev pub works : Driver
works name = (false, false)

-- a client that a start leaves alone
abbrev pub IsSeeded : Store → ManagedClient → Type 0
IsSeeded db c =
    (c.name == ""
      || c.token == ""
      || is_some (find (has_name c.name) db.clients)
      || is_some (find (has_token c.token) db.clients))
    ≡ true

-- the rows of clients are as they were, or there is one more
pub data Grown (db : Store) : Store → Type 0 where
  same : Grown db db
  more :
      (row : Client) (n : ℕ)
      → Grown db (record db { clients = db.clients ++ (row ∷ []); client_seq = n })

-- a client that is not there yet
abbrev is_free : Bool → String → String → Store → Bool
is_free fault name token db = not (
    fault
    || is_some (find (has_name name) db.clients)
    || is_some (find (has_token token) db.clients))

-- an insertion that is refused changes nothing
add_client_taken :
    (fault : Bool) (now name token : String) (mt mb : ℕ) (db : Store)
    → is_free fault name token db ≡ false
    → (add_client fault now name token mt mb db).1 ≡ db
unfolding add_client add_client_with_owner
add_client_taken fault now name token mt mb db h =
    let q : (fault
          || is_some (find (has_name name) db.clients)
          || is_some (find (has_token token) db.clients))
        ≡ true =
      ground (arith, h) in
    rw (q, add_client, add_client_with_owner) refl

abbrev new_row : String → ManagedClient → ℕ → Client
new_row now c id = record {
  id = id;
  name = c.name;
  token = c.token;
  max_tunnels = c.max_tunnels;
  max_traffic_bytes = c.max_traffic_bytes;
  bytes_in = 0;
  bytes_out = 0;
  status = "active";
  owner = "";
  created_at = now;
  updated_at = now;
}

add_client_free :
    (fault : Bool) (now : String) (c : ManagedClient) (db : Store)
    → is_free fault c.name c.token db ≡ true
    → (add_client fault now c.name c.token c.max_tunnels c.max_traffic_bytes db).1 ≡ record db {
      clients = db.clients ++ (new_row now c (db.client_seq + 1) ∷ []);
      client_seq = db.client_seq + 1;
    }
unfolding add_client add_client_with_owner
add_client_free fault now c db h =
    let q : (fault
          || is_some (find (has_name c.name) db.clients)
          || is_some (find (has_token c.token) db.clients))
        ≡ false =
      ground (arith, h) in
    rw (q, add_client, add_client_with_owner) refl

Grown-if_missing :
    (o : Option Client) (added db : Store) → Grown db added → Grown db (if_missing o added db)
Grown-if_missing (some c) added db g = same
Grown-if_missing none added db g = g

pub Grown-seed_client :
    (now : String) (driver : Driver) (c : ManagedClient) (db : Store)
    → Grown db (seed_client now driver c db)
unfolding seed_client
Grown-seed_client now driver c db = elim (Bool-cases (c.name == "" || c.token == "")) [
  | inl q ↦ rw (q, seed_client) same
  | inr q ↦
      let f = (driver c.name).1 in
      rw (q, seed_client)
        (Grown-if_missing (get_or (get_client (driver c.name).0 c.name db) none) _ db
          (elim (Bool-cases (is_free f c.name c.token db)) [
            | inl r ↦
                subst (Grown db) (sym (add_client_free f now c db r))
                  (more (new_row now c (db.client_seq + 1)) (db.client_seq + 1))
            | inr r ↦
                subst (Grown db)
                  (sym
                    (add_client_taken f now c.name c.token c.max_tunnels c.max_traffic_bytes db r))
                  same
          ]))
]

pub IsSeeded-Grown :
    (c : ManagedClient) (db : Store) {db' : Store} → Grown db db' → IsSeeded db c → IsSeeded db' c
IsSeeded-Grown c db same h = h
IsSeeded-Grown c db (more row n) h = ground (
  arith,
  h,
  is_some-find-append (has_name c.name) db.clients row,
  is_some-find-append (has_token c.token) db.clients row,
)

-- the row that a start adds makes its client one that is seeded
IsSeeded-new_row :
    (now : String) (c : ManagedClient) (db : Store) (n : ℕ)
    → IsSeeded (record db { clients = db.clients ++ (new_row now c n ∷ []); client_seq = n }) c
IsSeeded-new_row now c db n =
    ground
      (arith, is_some-find-append (has_name c.name) db.clients (new_row now c n), ==_refl c.name)

pub IsSeeded-seed_client :
    (now : String) (c : ManagedClient) (db : Store) → IsSeeded (seed_client now works c db) c
unfolding seed_client get_client
IsSeeded-seed_client now c db = elim (Bool-cases (c.name == "" || c.token == "")) [
  | inl q ↦
      let told : seed_client now works c db ≡ db = rw (q, seed_client) refl in
      subst (λ x. IsSeeded x c) (sym told) (ground (arith, q))
  | inr q ↦ elim (Option-cases (find (has_name c.name) db.clients)) [
    | inl (row, f) ↦
        let told : seed_client now works c db ≡ db = rw (q, f, seed_client) refl in
        subst (λ x. IsSeeded x c) (sym told) (ground (arith, f))
    | inr f ↦
        let told : seed_client now works c db
            ≡ (add_client false now c.name c.token c.max_tunnels c.max_traffic_bytes db).1 =
          rw (q, f, seed_client) refl in
        elim (Bool-cases (is_free false c.name c.token db)) [
          | inl r ↦
              subst (λ x. IsSeeded x c) (sym (told ∙ add_client_free false now c db r))
                (IsSeeded-new_row now c db (db.client_seq + 1))
          | inr r ↦
              subst (λ x. IsSeeded x c)
                (sym (
                  told
                  ∙ add_client_taken false now c.name c.token c.max_tunnels c.max_traffic_bytes db
                      r))
                (ground (arith, r))
        ]
  ]
]

if_missing_same : (o : Option Client) (added db : Store) → added ≡ db → if_missing o added db ≡ db
if_missing_same (some c) added db e = refl
if_missing_same none added db e = e

pub seed_client-IsSeeded :
    (now : String) (driver : Driver) (c : ManagedClient) (db : Store)
    → IsSeeded db c
    → seed_client now driver c db ≡ db
unfolding seed_client
seed_client-IsSeeded now driver c db h = elim (Bool-cases (c.name == "" || c.token == "")) [
  | inl q ↦ rw (q, seed_client) refl
  | inr q ↦
      let f = (driver c.name).1 in
      let taken : is_free f c.name c.token db ≡ false = ground (arith, h, q) in
      rw (q, seed_client)
        (if_missing_same (get_or (get_client (driver c.name).0 c.name db) none) _ db
          (add_client_taken f now c.name c.token c.max_tunnels c.max_traffic_bytes db taken))
]
