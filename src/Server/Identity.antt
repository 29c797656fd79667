-- ===== src/Server/Identity.antt =====
-- cmd/server/main.go: who a connection is: the token of a login, the table of managed clients and the
-- key of a client's data channels. A range over a map takes the first entry in the order of the list.
use nexus_link.Base.{ℕ, String}
use nexus_link.Base.{Bool, not, ◌&&◌, ◌||◌, Option, none, some, [], ◌∷◌, if◌then◌else◌}
use nexus_link.Base.{◌==◌, Eq-nat, Eq-string, Eq-bytes, Eq-pair}
use nexus_link.Base.Dict.{Dict, get_or, lookup, insert}
use nexus_link.Store.Tables.{Client, Store}
use nexus_link.Store.Clients.{
  get_client, get_client_by_token, add_client_with_owner, update_client_quota,
}
use nexus_link.Server.State.{ManagedClient, Server}

-- clientNameForLocked
unfoldable pub client_name_for : String → Server → String
client_name_for id s = get_or (lookup id s.client_names) "default"

abbrev pub first_value :
    (ManagedClient → Bool) → Dict String ManagedClient → Option (String × ManagedClient)
first_value p [] = none
first_value p ((t, mc) ∷ m) = let rest = first_value p m in if p mc then some (t, mc) else rest

-- authForClientLocked: the token that keys the data channels of a client
unfoldable pub auth_for_client : String → Server → String
auth_for_client name s =
    if not (name == "") && not (name == "default")
    then elim (first_value (λ mc. mc.name == name) s.managed_by_token) [
      | some (t, mc) ↦ mc.token
      | none ↦ s.token
    ]
    else s.token

-- the name that the index of managed clients has for a token, or ""
unfoldable pub indexed_name : String → Server → String
indexed_name token s = elim (lookup token s.managed_by_token) [ some mc ↦ mc.name | none ↦ "" ]

abbrev pub managed : Client → ManagedClient
managed c = record {
  name = c.name;
  token = c.token;
  max_tunnels = c.max_tunnels;
  max_traffic_bytes = c.max_traffic_bytes;
}

-- the database is asked when the index has no name
unfoldable pub stored_name : Bool → String → Server → String × Server
stored_name fault token s = elim s.store [
  | none ↦ ("", s)
  | some db ↦ elim (get_client_by_token fault token db) [
    | none ↦ ("", s)
    | some none ↦ ("", s)
    | some (some c) ↦
        (c.name, record s { managed_by_token = insert token (managed c) s.managed_by_token })
  ]
]

unfoldable pub fallback_name : String → String × Server → Option String × Server
fallback_name token (name, s) =
    if not (name == "")
    then (some name, s)
    else if token == s.token
    then (some "default", s)
    else (none, s)

-- handleClient from the parsed login to the answer: the name of the client, or a refusal
unfoldable pub identify : Bool → String → Server → Option String × Server
unfolding stored_name fallback_name
identify fault token s =
    let name = indexed_name token s in
    fallback_name token (if name == "" then stored_name fault token s else (name, s))

-- handleClient after the answer: the connection gets an id and its client a counter
unfoldable pub register : String → ℕ → String → Server → Server
register id conn name s = record s {
  clients = insert id conn s.clients;
  client_names = insert id name s.client_names;
  client_traffic = elim (lookup name s.client_traffic) [
    | none ↦ insert name (0, 0) s.client_traffic
    | some _ ↦ s.client_traffic
  ];
}

pub data Refusal : Type 0 where
  empty_field name_taken token_taken write_failed : Refusal

-- the first entry that has the name or the token
abbrev pub conflict : String → String → Dict String ManagedClient → Option Refusal
conflict name token [] = none
conflict name token ((t, mc) ∷ m) =
    let rest = conflict name token m in
    if mc.name == name
    then some name_taken
    else if mc.token == token
    then some token_taken
    else rest

-- the calls of the store, each with its own fault
unfoldable pub persist_client :
    Bool → Bool → String → String → String → ℕ → ℕ → String → Store → Option Refusal × Store
unfolding get_client add_client_with_owner update_client_quota
persist_client read_fault write_fault now name token mt mb owner db =
    elim (get_client read_fault name db) [
      | some (some c) ↦ (none, (update_client_quota write_fault now name mt mb db).1)
      | _ ↦
          let (answer, db') = add_client_with_owner write_fault now name token mt mb owner db in
          (elim answer [ some _ ↦ none | none ↦ some write_failed ], db')
    ]

-- AddManagedClientWithOwner
unfoldable pub add_managed_client :
    Bool → Bool → String → String → String → ℕ → ℕ → String → Server → Option Refusal × Server
unfolding persist_client
add_managed_client read_fault write_fault now name token mt mb owner s =
    if name == "" || token == ""
    then (some empty_field, s)
    else elim (conflict name token s.managed_by_token) [
      | some r ↦ (some r, s)
      | none ↦
          let mc : ManagedClient = record {
            name = name;
            token = token;
            max_tunnels = mt;
            max_traffic_bytes = mb;
          } in
          let s1 = record s {
            managed_by_token = insert token mc s.managed_by_token;
            client_traffic = elim (lookup name s.client_traffic) [
              | none ↦ insert name (0, 0) s.client_traffic
              | some _ ↦ s.client_traffic
            ];
          } in
          elim s.store [
            | none ↦ (none, s1)
            | some db ↦
                let (r, db') =
                  persist_client read_fault write_fault now name token mt mb owner db in
                (r, record s1 { store = some db' })
          ]
    ]
