-- ===== src/Web/Tenancy.antt =====
-- A user's token gives access to the clients that the user owns, and to no other.
use nexus_link.Base.{String, ◌≡◌, ◌≢◌, refl, sym, ap, ◌∙◌, ◌↔◌, inl, inr}
use nexus_link.Base.{Bool, true, false, ◌&&◌, none, some, arith, if◌then◌else◌}
use nexus_link.Base.{
  Bool-cases, Option-cases, ◌==◌, Eq-nat, Eq-string, Eq-bytes, Eq-pair, ==_refl, &&-true,
}
use nexus_link.Base.Dict.{get_or, lookup, apart}
use nexus_link.Base.Tables.{find, find_holds, Distinct}
use nexus_link.Base.Members.{Member, Member-find, find-Member}
use nexus_link.Store.Tables.{ApiKey, Client, User, Store}
use nexus_link.Store.Clients.{has_name, get_client}
use nexus_link.Store.Users.{get_user_by_token}
use nexus_link.Store.Login.{token_of}
use nexus_link.Store.Keys.{is_key, has_api_key}
use nexus_link.Web.State.{WebServer}
use nexus_link.Web.Access.{
  ApiIdentity, static_identity, stored_identity, api_identity, can_access_client,
}

-- the caller behind the token of an active user
pub identity-user :
    (key_fault : Bool) (key : String) (u : User) (db : Store) (ws : WebServer)
    → (key == "") ≡ false
    → ws.store ≡ some db
    → get_or (has_api_key key_fault key db) false ≡ false
    → get_user_by_token false key db ≡ some (some u)
    → api_identity key_fault false key ws
      ≡ some (record { admin = false; username = u.username; role = u.role })
unfolding api_identity stored_identity
identity-user key_fault key u db ws n s k g =
    rw (n, api_identity)
      (rw (s, api_identity) (rw (k, stored_identity) (rw (g, stored_identity) refl)))

pub access-user :
    (id : ApiIdentity) (client : String) (db : Store) (ws : WebServer)
    → id.admin ≡ false
    → ws.store ≡ some db
    → (can_access_client false id client ws ≡ true)
      ↔ ((c : Client) × (get_client false client db ≡ some (some c)) × (c.owner ≡ id.username))
unfolding can_access_client get_client
access-user id client db ws a s =
    rw (a, can_access_client)
      (rw (s, can_access_client)
        (elim (Option-cases (find (has_name client) db.clients)) [
          | inr e ↦ rw (e, can_access_client) (λ h. cc, λ (c, f, o). cc)
          | inl (c, e) ↦
              rw (e, can_access_client)
                (
                  λ h. (c, refl, (Eq-string.same_iff c.owner id.username).0 h),
                  λ (c', f, o). (Eq-string.same_iff c.owner id.username).1 (ground (arith, f, o)),
                )
        ]))

-- a client that another owns is not reached, even when the database fails
pub can_access_client_foreign :
    (fault : Bool) (id : ApiIdentity) (client : String) (db : Store) (ws : WebServer)
    → ws.store ≡ some db
    → id.admin ≡ false
    → ((c : Client) → get_client false client db ≡ some (some c) → (c.owner == id.username) ≡ false)
    → can_access_client fault id client ws ≡ false
unfolding can_access_client get_client
can_access_client_foreign true id client db ws s a h =
    rw (a, can_access_client) (rw (s, can_access_client) refl)
can_access_client_foreign false id client db ws s a h =
    rw (a, can_access_client)
      (rw (s, can_access_client)
        (elim (Option-cases (find (has_name client) db.clients)) [
          | inr e ↦ rw (e, can_access_client) refl
          | inl (c, e) ↦ rw (e, can_access_client) (h c (ap some e))
        ]))

abbrev pub name_of : Client → String
name_of c = c.name

abbrev caller : User → ApiIdentity
caller u = record { admin = false; username = u.username; role = u.role }

-- a text that is the key of no row is not accepted as an API key, whether the database fails or not
no_key :
    (fault : Bool) (key : String) (db : Store)
    → ((k : ApiKey) → Member k db.api_keys → k.key ≢ key)
    → get_or (has_api_key fault key db) false ≡ false
unfolding has_api_key
no_key true key db h = refl
no_key false key db h = elim (Option-cases (find (is_key key) db.api_keys)) [
  | inr n ↦ rw n refl
  | inl (k, f) ↦
      let same = (Eq-string.same_iff k.key key).0 (find_holds (is_key key) db.api_keys k f) in
      elim (h k (Member-find (is_key key) db.api_keys k f) same) [ ]
]

-- who the token of a row of the users finds
token-row :
    (u : User) (db : Store)
    → Member u db.users
    → Distinct token_of db.users
    → get_user_by_token false u.api_token db ≡ some (if u.status == "active" then some u else none)
unfolding get_user_by_token
token-row u db m d =
    let active : User → Bool = λ x. x.api_token == u.api_token && x.status == "active" in
    let own : active u ≡ (u.status == "active") = rw (==_refl u.api_token) refl in
    let only : (x : User) → active x ≡ true → x.api_token ≡ u.api_token = λ x h.
      (Eq-string.same_iff x.api_token u.api_token).0
        (&&-true (x.api_token == u.api_token) (x.status == "active") h).0 in
    ap some (find-Member token_of active db.users u d m only)
    ∙ ap (λ b. some (if b then some u else none)) own

token-identity :
    (key_fault : Bool) (u : User) (db : Store) (ws : WebServer)
    → u.api_token ≢ ""
    → ws.store ≡ some db
    → Member u db.users
    → Distinct token_of db.users
    → ((k : ApiKey) → Member k db.api_keys → k.key ≢ u.api_token)
    → get_or (lookup u.api_token ws.api_keys) false ≡ false
    → api_identity key_fault false u.api_token ws
      ≡ (if u.status == "active" then some (caller u) else none)
unfolding api_identity stored_identity static_identity
token-identity key_fault u db ws n s m d k a =
    let key = u.api_token in
    let none_stored = no_key key_fault key db k in
    let found = token-row u db m d in
    elim (Bool-cases (u.status == "active")) [
      | inl q ↦
          let g : get_user_by_token false key db ≡ some (some u) =
            found ∙ ap (λ b. some (if b then some u else none)) q in
          identity-user key_fault key u db ws (apart key "" n) s none_stored g ∙ rw q refl
      | inr q ↦
          let g : get_user_by_token false key db ≡ some none =
            found ∙ ap (λ b. some (if b then some u else none)) q in
          rw (apart key "" n, api_identity)
            (rw (s, api_identity)
              (rw (none_stored, stored_identity)
                (rw (g, stored_identity) (rw (a, static_identity) (rw q refl)))))
    ]

-- the row that a query by the name finds
client-row :
    (client : String) (c : Client) (db : Store)
    → Distinct name_of db.clients
    → (get_client false client db ≡ some (some c)) ↔ (Member c db.clients × (c.name ≡ client))
unfolding get_client
client-row client c db d = (
  λ h.
      let f : find (has_name client) db.clients ≡ some c = ground (arith, h) in
      (
        Member-find (has_name client) db.clients c f,
        (Eq-string.same_iff c.name client).0 (find_holds (has_name client) db.clients c f),
      ),
  λ (m, e).
      let own = (Eq-string.same_iff c.name client).1 e in
      ap some (
        find-Member name_of (has_name client) db.clients c d m
          (λ x h. (Eq-string.same_iff x.name client).0 h ∙ sym e)
        ∙ ap (λ b. if b then some c else none) own),
)

-- The token of a row of the users, which is not empty and neither an API key of the database nor a
-- static key, identifies the user of that row, never as an administrator, if the row is active, and
-- nobody if it is not. A caller who is that user reaches exactly the clients that have a row with
-- the asked name and the user as its owner. The tokens of the users and the names of the clients
-- are unique, as the schema has it, and the database answers, except that the query for the API
-- keys may fail.
pub can_access_client-api_identity :
    (key_fault : Bool) (client : String) (u : User) (db : Store) (ws : WebServer)
    → u.api_token ≢ ""
    → ws.store ≡ some db
    → Member u db.users
    → Distinct token_of db.users
    → Distinct name_of db.clients
    → ((k : ApiKey) → Member k db.api_keys → k.key ≢ u.api_token)
    → get_or (lookup u.api_token ws.api_keys) false ≡ false
    → (api_identity key_fault false u.api_token ws ≡ (
        if u.status == "active"
        then some (record { admin = false; username = u.username; role = u.role })
        else none))
      × ((can_access_client false
              (record { admin = false; username = u.username; role = u.role })
              client
              ws
            ≡ true)
          ↔ ((c : Client) × Member c db.clients × (c.name ≡ client) × (c.owner ≡ u.username)))
can_access_client-api_identity key_fault client u db ws n s m d e k a =
    let (out, back) = access-user (caller u) client db ws refl s in
    (
      token-identity key_fault u db ws n s m d k a,
      (
        λ h. let (c, f, o) = out h in let (r, q) = (client-row client c db e).0 f in (c, r, q, o),
        λ (c, r, q, o). back (c, (client-row client c db e).1 (r, q), o),
      ),
    )

-- A key that is neither an API key of the database, nor the token of an active user, nor a static key
-- identifies nobody; nor does an empty one.
pub api_identity_nobody :
    (key : String) (db : Store) (ws : WebServer)
    → ws.store ≡ some db
    → has_api_key false key db ≡ some false
    → get_user_by_token false key db ≡ some none
    → get_or (lookup key ws.api_keys) false ≡ false
    → api_identity false false key ws ≡ none
unfolding api_identity stored_identity static_identity
api_identity_nobody key db ws s k g a = elim (Bool-cases (key == "")) [
  | inl q ↦ rw (q, api_identity) refl
  | inr q ↦
      rw (q, api_identity)
        (rw (s, api_identity)
          (rw (k, stored_identity) (rw (g, stored_identity) (rw (a, static_identity) refl))))
]
