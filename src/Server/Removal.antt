-- ===== src/Server/Removal.antt =====
-- cmd/server/main.go: RemoveManagedClient and NotifyClientSync.
use nexus_link.Base.{ℕ, String, ◌≡◌, refl, ap, ◌∙◌, inl, inr}
use nexus_link.Base.{
  Bool, true, false, ◌&&◌, ◌||◌, Option, none, some, List, [], ◌∷◌, arith, ltb, if◌then◌else◌,
}
use nexus_link.Base.{Bool-cases, ◌==◌, Eq-nat, Eq-string, Eq-bytes, Eq-pair, ==_refl}
use nexus_link.Base.{length, All}
use nexus_link.Base.Dict.{Dict, get_or, lookup, remove, lookup-remove}
use nexus_link.Base.Tables.{find, delete}
use nexus_link.Store.Tables.{Client, Store}
use nexus_link.Store.Clients.{has_name, has_token, get_client_by_token, delete_client}
use nexus_link.Server.State.{ManagedClient, Server}
use nexus_link.Server.Identity.{first_value, stored_name, identify}
use nexus_link.Server.Admission.{identify_unmanaged}

-- the connections of the clients that have the name
unfoldable pub connections_of : String → Dict String ℕ → Dict String String → List ℕ
connections_of name [] names = []
connections_of name ((id, conn) ∷ clients) names =
    let rest = connections_of name clients names in
    if get_or (lookup id names) "" == name then conn ∷ rest else rest

unfoldable pub unindex : String → Server → Bool × Server
unindex name s = elim (first_value (λ mc. mc.name == name) s.managed_by_token) [
  | some (t, mc) ↦ (true, record s { managed_by_token = remove t s.managed_by_token })
  | none ↦ (false, s)
]

-- an error of the database is ignored
unfoldable pub unstore : Bool → String → Server → Bool × Server
unfolding delete_client
unstore fault name s = elim s.store [
  | none ↦ (false, s)
  | some db ↦
      let (answer, db') = delete_client fault name db in
      (get_or answer false, record s { store = some db' })
]

-- RemoveManagedClient: the connections that are closed, or `none` when there is no such client
unfoldable pub remove_managed_client : Bool → String → Server → Option (List ℕ) × Server
unfolding connections_of unindex unstore
remove_managed_client fault name s =
    let (found, s1) = unindex name s in
    let conns = connections_of name s.clients s.client_names in
    let (deleted, s2) = unstore fault name s1 in
    (if found || deleted || ltb 0 (length conns) then some conns else none, s2)

-- NotifyClientSync: the first connection of the client is closed, if there is one
unfoldable pub notify_client_sync : String → Server → Option ℕ
unfolding connections_of
notify_client_sync name s = elim (connections_of name s.clients s.client_names) [
  | [] ↦ none
  | c ∷ rest ↦ some c
]

-- in the database only a client of the name has the token
abbrev pub HoldsToken : String → String → List Client → Type 0
HoldsToken name token cs = All (λ c. has_token token c ≡ true → has_name name c ≡ true) cs

find-deleted :
    (name token : String) (cs : List Client)
    → HoldsToken name token cs
    → find (λ c. has_token token c && c.status == "active") (delete (has_name name) cs) ≡ none
unfolding find
find-deleted name token [] h = refl
find-deleted name token (c ∷ cs) (h, hs) =
    let rest = find-deleted name token cs hs in
    elim (Bool-cases (c.name == name)) [
      | inl q ↦ ground (arith, q, rest)
      | inr q ↦ elim (Bool-cases (c.token == token)) [
        | inl t ↦ ground (arith, q, h t)
        | inr t ↦ ground (arith, q, t, rest)
      ]
    ]

lookup-unindex :
    (name token : String) (mc : ManagedClient) (s : Server)
    → first_value (λ c. c.name == name) s.managed_by_token ≡ some (token, mc)
    → (unindex name s).1 ≡ record s { managed_by_token = remove token s.managed_by_token }
unfolding unindex
lookup-unindex name token mc s h = rw (h, unindex) refl

unstored :
    (name : String) (db : Store) (s : Server)
    → s.store ≡ some db
    → (unstore false name s).1
      ≡ record s { store = some (record db { clients = delete (has_name name) db.clients }) }
unfolding unstore delete_client
unstored name db s h = rw (h, unstore) refl

removed :
    (name token : String) (mc : ManagedClient) (db : Store) (s : Server)
    → first_value (λ c. c.name == name) s.managed_by_token ≡ some (token, mc)
    → s.store ≡ some db
    → (remove_managed_client false name s).1 ≡ record s {
      managed_by_token = remove token s.managed_by_token;
      store = some (record db { clients = delete (has_name name) db.clients });
    }
unfolding remove_managed_client
removed name token mc db s h d =
    let first = lookup-unindex name token mc s h in
    ap (λ s1. (unstore false name s1).1) first
    ∙ unstored name db (record s { managed_by_token = remove token s.managed_by_token }) d

-- a token that nobody active has is not found, whether or not the database answers
unknown :
    (fault : Bool) (token : String) (db : Store) (s : Server)
    → find (λ c. has_token token c && c.status == "active") db.clients ≡ none
    → let s' = record s { store = some db } in stored_name fault token s' ≡ ("", s')
unfolding stored_name get_client_by_token
unknown true token db s e = refl
unknown false token db s e = rw (e, stored_name) refl

-- The token of a managed client that is removed from the index and from the database, without a
-- fault of the database and where no client of another name has the token, is not admitted any
-- more, unless it is the main token.
pub identify-remove_managed_client :
    (fault : Bool) (name token : String) (mc : ManagedClient) (db : Store) (s : Server)
    → first_value (λ c. c.name == name) s.managed_by_token ≡ some (token, mc)
    → s.store ≡ some db
    → HoldsToken name token db.clients
    → let s' = (remove_managed_client false name s).1 in
      identify fault token s' ≡ (if token == s.token then some "default" else none, s')
identify-remove_managed_client fault name token mc db s h d t =
    let db' = record db { clients = delete (has_name name) db.clients } in
    let s' : Server = record s {
      managed_by_token = remove token s.managed_by_token;
      store = some db';
    } in
    let gone : lookup token s'.managed_by_token ≡ none =
      lookup-remove token token s.managed_by_token ∙ rw (==_refl token) refl in
    rw (removed name token mc db s h d) (
      identify_unmanaged fault token s' gone
        (unknown fault token db' s' (find-deleted name token db.clients t)))
