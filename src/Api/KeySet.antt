-- ===== src/Api/KeySet.antt =====
-- The API keys as a set: what requests on keys do to it, and whom it lets in. The database and the
-- index in memory implement it together.
use nexus_link.Base.{String, ◌≡◌, refl, sym, ap, ◌∙◌, inl, inr}
use nexus_link.Base.{Bool, true, false, ◌&&◌, none, some, List, [], ◌∷◌, ◌++◌, arith, if◌then◌else◌}
use nexus_link.Base.{Bool-cases, ◌==◌, Eq-nat, Eq-string, Eq-bytes, Eq-pair}
use mathlib.Core.Path.{subst}
use nexus_link.Base.Dict.{is_some, get_or, lookup, lookup-insert, lookup-remove}
use nexus_link.Base.Tables.{find, delete, find-delete, find-delete-none}
use nexus_link.Base.Rows.{is_some-find-append}
use nexus_link.Store.Tables.{ApiKey, User, Store}
use nexus_link.Store.Users.{get_user_by_token}
use nexus_link.Store.Keys.{is_key, add_api_key, delete_api_key, has_api_key}
use nexus_link.Web.State.{WebServer}
use nexus_link.Web.Access.{administrator, static_identity, stored_identity, api_identity}
use nexus_link.Api.State.{is_success, Panel, web_of, Reply, Faults, refuse, with_store-some}
use nexus_link.Api.Keys.{
  key_created, create_key, post_key, api_keys_by_method, v1_handle_api_keys, key_deleted,
  delete_key, v1_handle_api_key_path,
}
use nexus_link.Api.KeySpec.{
  KeyRequest, adds, deletes, run_key, run_keys, KeySet, step, steps, Holds,
}

-- a reply that follows a step of the specification
abbrev Follows : List User → Bool × KeySet → Reply → Type 0
Follows us after r = (is_success r.0 ≡ after.0) × Holds us r.1.1 after.1

created-Holds :
    (us : List User) (now key note : String) (p : Panel) (ks : KeySet) (h : Holds us p ks)
    → Holds us
        (key_created key
          (
            some tt,
            record h.db {
              api_keys =
                  h.db.api_keys ++ (record { key = key; note = note; created_at = now } ∷ []);
            },
          )
          p).1.1
        (λ k. if key == k then true else ks k)
unfolding key_created
created-Holds us now key note p ks h =
    let row : ApiKey = record { key = key; note = note; created_at = now } in
    record {
      db = record h.db { api_keys = h.db.api_keys ++ (row ∷ []) };
      stored = refl;
      users_same = h.users_same;
      kept = λ k.
          is_some-find-append (is_key k) h.db.api_keys row
          ∙ ap (λ b. if key == k then true else b) (h.kept k);
      indexed = λ k. ground (arith, lookup-insert key k true p.web.api_keys, h.indexed k);
    }

adds-Follows :
    (us : List User) (f : Faults) (now key note : String) (p : Panel) (ks : KeySet)
    (h : Holds us p ks)
    → Follows us (step (adds f now key note) ks) (post_key f now (some (key, note)) h.db p)
unfolding step post_key is_success
adds-Follows us f now key note p ks h = elim (Bool-cases (key == "")) [
  | inl q ↦ rw (q, step, post_key) (refl, h)
  | inr q ↦ elim (Bool-cases f.write) [
    | inl w ↦ rw (q, w, step, post_key, create_key, add_api_key, key_created) (refl, h)
    | inr w ↦ elim (Bool-cases (ks key)) [
      | inl m ↦
          rw (q, w, h.kept key, m, step, post_key, create_key, add_api_key, key_created) (refl, h)
      | inr m ↦
          rw (q, w, h.kept key, m, step, post_key, create_key, add_api_key)
            (refl, created-Holds us now key note p ks h)
    ]
  ]
]

find-deleted_key :
    (key k : String) (rows : List ApiKey)
    → is_some (find (is_key k) (delete (is_key key) rows))
      ≡ (if key == k then false else is_some (find (is_key k) rows))
find-deleted_key key k rows = elim (Bool-cases (key == k)) [
  | inl q ↦
      let e : key ≡ k = (Eq-string.same_iff key k).0 q in
      rw q (
        subst (λ j. is_some (find (is_key j) (delete (is_key key) rows)) ≡ false) e
          (ap is_some (find-delete-none (is_key key) rows)))
  | inr q ↦ rw q (
      ap is_some (
        find-delete (is_key key) (is_key k) rows (λ x t. ground (
          arith,
          q,
          t,
          Eq-string.same_iff x.key key,
          Eq-string.same_iff x.key k,
          Eq-string.same_iff key k,
        ))))
]

deleted-Holds :
    (us : List User) (key : String) (p : Panel) (ks : KeySet) (h : Holds us p ks)
    → Holds us
        (key_deleted key
          (some true, record h.db { api_keys = delete (is_key key) h.db.api_keys })
          p).1.1
        (λ k. if key == k then false else ks k)
unfolding key_deleted
deleted-Holds us key p ks h = record {
  db = record h.db { api_keys = delete (is_key key) h.db.api_keys };
  stored = refl;
  users_same = h.users_same;
  kept = λ k.
      find-deleted_key key k h.db.api_keys ∙ ap (λ b. if key == k then false else b) (h.kept k);
  indexed = λ k. ground (arith, lookup-remove key k p.web.api_keys, h.indexed k);
}

-- a deletion that finds no row
nothing_deleted-Holds :
    (us : List User) (key : String) (p : Panel) (ks : KeySet) (h : Holds us p ks)
    → ks key ≡ false
    → Holds us
        (key_deleted key
          (some false, record h.db { api_keys = delete (is_key key) h.db.api_keys })
          p).1.1
        ks
unfolding key_deleted
nothing_deleted-Holds us key p ks h m = record {
  db = record h.db { api_keys = delete (is_key key) h.db.api_keys };
  stored = refl;
  users_same = h.users_same;
  kept = λ k.
      ground (arith, find-deleted_key key k h.db.api_keys, h.kept k, m, Eq-string.same_iff key k);
  indexed = h.indexed;
}

deletes-Follows :
    (us : List User) (f : Faults) (key : String) (p : Panel) (ks : KeySet) (h : Holds us p ks)
    → Follows us
        (step (deletes f key) ks)
        (if key == "" then refuse 400 p else delete_key f.write key h.db p)
unfolding step is_success delete_key
deletes-Follows us f key p ks h = elim (Bool-cases (key == "")) [
  | inl q ↦ rw (q, step) (refl, h)
  | inr q ↦ elim (Bool-cases f.write) [
    | inl w ↦ rw (q, w, step, delete_key, delete_api_key, key_deleted) (refl, h)
    | inr w ↦ elim (Bool-cases (ks key)) [
      | inl m ↦
          rw (q, w, h.kept key, m, step, delete_key, delete_api_key)
            (refl, deleted-Holds us key p ks h)
      | inr m ↦
          rw (q, w, h.kept key, m, step, delete_key, delete_api_key)
            (refl, nothing_deleted-Holds us key p ks h m)
    ]
  ]
]

run_key-Follows :
    (us : List User) (r : KeyRequest) (p : Panel) (ks : KeySet)
    → Holds us p ks
    → Follows us (step r ks) (run_key r p)
unfolding run_key v1_handle_api_keys v1_handle_api_key_path api_keys_by_method
run_key-Follows us (adds f now key note) p ks h =
    subst (λ r. Follows us (step (adds f now key note) ks) r)
      (sym (with_store-some h.db p (λ db. post_key f now (some (key, note)) db p) h.stored))
      (adds-Follows us f now key note p ks h)
run_key-Follows us (deletes f key) p ks h =
    subst (λ r. Follows us (step (deletes f key) ks) r)
      (sym (
        with_store-some h.db p
          (λ db. if key == "" then refuse 400 p else delete_key f.write key db p) h.stored))
      (deletes-Follows us f key p ks h)

run_keys-Holds :
    (us : List User) (rs : List KeyRequest) (p : Panel) (ks : KeySet)
    → Holds us p ks
    → ((run_keys rs p).0 ≡ (steps rs ks).0) × Holds us (run_keys rs p).1 (steps rs ks).1
unfolding run_keys steps
run_keys-Holds us [] p ks h = (refl, h)
run_keys-Holds us (r ∷ rs) p ks h =
    let (ok, after) = run_key-Follows us r p ks h in
    let (oks, last) = run_keys-Holds us rs (run_key r p).1.1 (step r ks).1 after in
    (ground (arith, ok, oks), last)

identity_by_key :
    (k : String) (b : Bool) (db : Store) (ws : WebServer)
    → (k == "") ≡ false
    → ws.store ≡ some db
    → has_api_key false k db ≡ some b
    → get_user_by_token false k db ≡ some none
    → get_or (lookup k ws.api_keys) false ≡ b
    → api_identity false false k ws ≡ (if b then some administrator else none)
unfolding api_identity stored_identity static_identity
identity_by_key k true db ws n s t u i =
    rw (n, api_identity) (rw (s, api_identity) (rw (t, stored_identity) refl))
identity_by_key k false db ws n s t u i =
    rw (n, api_identity)
      (rw (s, api_identity)
        (rw (t, stored_identity) (rw (u, stored_identity) (rw (i, static_identity) refl))))

identity-Holds :
    (us : List User) (p : Panel) (ks : KeySet) (k : String)
    → Holds us p ks
    → (k == "") ≡ false
    → find (λ u. u.api_token == k && u.status == "active") us ≡ none
    → api_identity false false k (web_of p) ≡ (if ks k then some administrator else none)
unfolding web_of has_api_key get_user_by_token
identity-Holds us p ks k h n u =
    identity_by_key k (ks k) h.db (web_of p) n h.stored (ap some (h.kept k))
      (ap some (ap (find (λ v. v.api_token == k && v.status == "active")) h.users_same ∙ u))
      (h.indexed k)

-- Requests that add and delete API keys work on the keys as on a set, when the database and the memory
-- hold the same set before: each request succeeds exactly when it does on the set, where calls of the
-- database that fail do nothing, and afterwards a text that is not empty and no active user's token
-- identifies an administrator if it is in the set, and nobody if it is not.
pub run_keys-steps :
    (rs : List KeyRequest) (us : List User) (p : Panel) (ks : KeySet)
    → Holds us p ks
    → ((run_keys rs p).0 ≡ (steps rs ks).0)
      × ((k : String)
          → (k == "") ≡ false
          → find (λ u. u.api_token == k && u.status == "active") us ≡ none
          → api_identity false false k (web_of (run_keys rs p).1)
            ≡ (if (steps rs ks).1 k then some administrator else none))
run_keys-steps rs us p ks h =
    let (oks, last) = run_keys-Holds us rs p ks h in
    (oks, λ k n u. identity-Holds us (run_keys rs p).1 (steps rs ks).1 k last n u)
