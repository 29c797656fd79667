-- ===== src/Server/Admission.antt =====
-- What a managed client that has been added can do.
use nexus_link.Base.{ℕ, String, ◌≡◌, refl, ap, ◌∙◌, inl, inr}
use nexus_link.Base.{Bool, false, ◌||◌, none, some, [], ◌∷◌, arith, if◌then◌else◌}
use nexus_link.Base.{Option-cases, ◌==◌, Eq-nat, Eq-string, Eq-bytes, Eq-pair}
use nexus_link.Base.Dict.{Dict, lookup, insert, lookup-insert_self}
use nexus_link.Server.State.{ManagedClient, Server}
use nexus_link.Server.Identity.{
  auth_for_client, first_value, indexed_name, stored_name, fallback_name, identify, conflict,
  add_managed_client,
}

-- no client of the index has the name
first-insert :
    (name token : String) (mc : ManagedClient) (m : Dict String ManagedClient)
    → conflict name token m ≡ none
    → mc.name ≡ name
    → first_value (λ c. c.name == name) (insert token mc m) ≡ some (token, mc)
unfolding insert
first-insert name token mc [] h e = ground (arith, e, Eq-string.same_iff mc.name name)
first-insert name token mc ((t, c) ∷ m) h e = ground (
  arith,
  e,
  h,
  Eq-string.same_iff mc.name name,
  Eq-string.same_iff t token,
  first-insert name token mc m,
)

-- the index after a client is added
added :
    (rf wf : Bool) (now name token : String) (mt mb : ℕ) (owner : String) (s : Server)
    → conflict name token s.managed_by_token ≡ none
    → (name == "" || token == "") ≡ false
    → (add_managed_client rf wf now name token mt mb owner s).1.managed_by_token
      ≡ insert token
          (record { name = name; token = token; max_tunnels = mt; max_traffic_bytes = mb })
          s.managed_by_token
unfolding add_managed_client
added rf wf now name token mt mb owner s h e =
    rw (e, add_managed_client)
      (rw (h, add_managed_client)
        (elim (Option-cases s.store) [
          | inl (db, q) ↦ rw (q, add_managed_client) refl
          | inr q ↦ rw (q, add_managed_client) refl
        ]))

named :
    (token : String) (s : Server) (mc : ManagedClient)
    → lookup token s.managed_by_token ≡ some mc
    → indexed_name token s ≡ mc.name
unfolding indexed_name
named token s mc h = rw (h, indexed_name) refl

unnamed :
    (token : String) (s : Server)
    → lookup token s.managed_by_token ≡ none
    → indexed_name token s ≡ ""
unfolding indexed_name
unnamed token s h = rw (h, indexed_name) refl

identify-indexed :
    (fault : Bool) (token : String) (s : Server) (mc : ManagedClient)
    → lookup token s.managed_by_token ≡ some mc
    → (mc.name == "") ≡ false
    → identify fault token s ≡ (some mc.name, s)
unfolding identify fallback_name
identify-indexed fault token s mc h e = rw (named token s mc h) (ground (arith, e))

-- A managed client whose name and token are not empty and conflict with no other, and whose name is
-- not "default", is admitted after its addition under its name by its token, and its data channels
-- are keyed by that token, whether or not the database took it.
pub identify-add_managed_client :
    (rf wf fault : Bool) (now name token : String) (mt mb : ℕ) (owner : String) (s : Server)
    → conflict name token s.managed_by_token ≡ none
    → (name == "" || token == "") ≡ false
    → (name == "default") ≡ false
    → let s' = (add_managed_client rf wf now name token mt mb owner s).1 in
      (identify fault token s' ≡ (some name, s')) × (auth_for_client name s' ≡ token)
unfolding auth_for_client
identify-add_managed_client rf wf fault now name token mt mb owner s h e d =
    let mc : ManagedClient = record {
      name = name;
      token = token;
      max_tunnels = mt;
      max_traffic_bytes = mb;
    } in
    let s' = (add_managed_client rf wf now name token mt mb owner s).1 in
    let index = added rf wf now name token mt mb owner s h e in
    let n : (name == "") ≡ false = ground (arith, e) in
    (
      identify-indexed fault token s' mc
          (ap (λ m. lookup token m) index ∙ lookup-insert_self token mc s.managed_by_token) n,
      rw (n, d, index, first-insert name token mc s.managed_by_token h refl) refl,
    )

-- A token that no managed client has and that finds nobody in the database is admitted exactly when it
-- is the main token, as "default"; the server stays as it was.
pub identify_unmanaged :
    (fault : Bool) (token : String) (s : Server)
    → lookup token s.managed_by_token ≡ none
    → stored_name fault token s ≡ ("", s)
    → identify fault token s ≡ (if token == s.token then some "default" else none, s)
unfolding identify fallback_name
identify_unmanaged fault token s h e = rw (unnamed token s h, e) (ground arith)
