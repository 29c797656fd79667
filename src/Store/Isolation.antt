-- ===== src/Store/Isolation.antt =====
-- Tunnels: a client has one of each name, but deletion and change go by the name alone.
use nexus_link.Base.{ℕ, String, ◌≡◌, refl, ap, inl, inr}
use nexus_link.Base.{
  Bool, true, false, not, ◌&&◌, ◌||◌, none, some, List, [], ◌∷◌, arith, if◌then◌else◌,
}
use nexus_link.Base.{Bool-cases, ◌==◌, Eq-nat, Eq-string, Eq-bytes, Eq-pair}
use nexus_link.Base.{keep}
use nexus_link.Base.Dict.{is_some}
use nexus_link.Base.Tables.{
  find, update, delete, Distinct, All-find-none, Distinct-append, Distinct-keep, Distinct-update,
}
use nexus_link.Store.Tables.{Proxy, Store}
use nexus_link.Store.Tunnels.{
  is_named, is_tunnel_of, create_proxy, list_proxies_by_client, delete_proxy, update_proxy,
  set_proxy_enabled,
}

-- the calls that change the table of tunnels
pub data Edit : Type 0 where
  creates : Bool → String → Proxy → Edit
  deletes : Bool → String → Edit
  updates : Bool → String → String → ℕ → ℕ → String → Bool → Edit
  switches : Bool → String → Bool → Edit

unfoldable pub run_edit : Edit → Store → Store
unfolding create_proxy delete_proxy update_proxy set_proxy_enabled
run_edit (creates f now p) s = (create_proxy f now p s).1
run_edit (deletes f name) s = (delete_proxy f name s).1
run_edit (updates f name type rp lp la e) s = (update_proxy f name type rp lp la e s).1
run_edit (switches f name e) s = (set_proxy_enabled f name e s).1

unfoldable pub run_edits : List Edit → Store → Store
unfolding run_edit
run_edits [] s = s
run_edits (e ∷ es) s = run_edits es (run_edit e s)

abbrev pub key_of : Proxy → String × String
key_of p = (p.client_name, p.name)

Distinct-create :
    (f : Bool) (now : String) (p : Proxy) (s : Store)
    → Distinct key_of s.proxies
    → Distinct key_of (create_proxy f now p s).1.proxies
unfolding create_proxy
Distinct-create f now p s d =
    elim (Bool-cases (f || is_some (find (is_tunnel_of p.client_name p.name) s.proxies))) [
      | inl q ↦ rw (q, create_proxy) d
      | inr q ↦
          let free : find (is_tunnel_of p.client_name p.name) s.proxies ≡ none =
            ground (arith, q) in
          rw (q, create_proxy)
            (Distinct-append key_of _ s.proxies d (All-find-none key_of (key_of p) s.proxies free))
    ]

Distinct-edit :
    (e : Edit) (s : Store) → Distinct key_of s.proxies → Distinct key_of (run_edit e s).proxies
unfolding run_edit delete_proxy update_proxy set_proxy_enabled
Distinct-edit (creates f now p) s d = Distinct-create f now p s d
Distinct-edit (deletes true name) s d = d
Distinct-edit (deletes false name) s d = Distinct-keep key_of _ s.proxies d
Distinct-edit (updates true name type rp lp la e) s d = d
Distinct-edit (updates false name type rp lp la e) s d =
    Distinct-update key_of _ _ s.proxies (λ p. refl) d
Distinct-edit (switches true name e) s d = d
Distinct-edit (switches false name e) s d = Distinct-update key_of _ _ s.proxies (λ p. refl) d

-- Whatever calls change the tunnels, and whichever of them fail, no client ever has two tunnels of one
-- name.
pub run_edits-Distinct :
    (es : List Edit) (s : Store)
    → Distinct key_of s.proxies
    → Distinct key_of (run_edits es s).proxies
unfolding run_edits
run_edits-Distinct [] s d = d
run_edits-Distinct (e ∷ es) s d = run_edits-Distinct es _ (Distinct-edit e s d)

find-delete_named :
    (name client other : String) (ps : List Proxy)
    → find (is_tunnel_of client other) (delete (is_named name) ps)
      ≡ (if name == other then none else find (is_tunnel_of client other) ps)
unfolding find
find-delete_named name client other [] = ground arith
find-delete_named name client other (p ∷ ps) =
    let rest = find-delete_named name client other ps in
    let s1 = Eq-string.same_iff p.name name in
    let s2 = Eq-string.same_iff p.name other in
    let s3 = Eq-string.same_iff name other in
    elim (Bool-cases (p.name == name)) [
      | inl q ↦ ground (arith, q, rest, s1, s2, s3)
      | inr q ↦ ground (arith, q, rest, s1, s2, s3)
    ]

list_switched_off :
    (name client : String) (ps : List Proxy)
    → keep
        (λ p. p.client_name == client && p.enabled)
        (update (is_named name) (λ p. record p { enabled = false }) ps)
      ≡ keep (λ p. p.client_name == client && p.enabled && not (p.name == name)) ps
unfolding update
list_switched_off name client [] = refl
list_switched_off name client (p ∷ ps) =
    let rest = list_switched_off name client ps in
    elim (Bool-cases (p.name == name)) [
      | inl q ↦ ground (arith, q, rest)
      | inr q ↦ ground (arith, q, rest)
    ]

-- Deletion by a name takes the tunnel of that name from every client, and no other tunnel.
pub find-delete_proxy :
    (name client other : String) (s : Store)
    → find (is_tunnel_of client other) (delete_proxy false name s).1.proxies
      ≡ (if name == other then none else find (is_tunnel_of client other) s.proxies)
unfolding delete_proxy
find-delete_proxy name client other s = find-delete_named name client other s.proxies

-- A tunnel name that is switched off is listed for no client any more; what else a client lists is as
-- it was.
pub list-set_proxy_enabled :
    (name client : String) (s : Store)
    → list_proxies_by_client false client (set_proxy_enabled false name false s).1
      ≡ some (keep (λ p. p.client_name == client && p.enabled && not (p.name == name)) s.proxies)
unfolding list_proxies_by_client set_proxy_enabled
list-set_proxy_enabled name client s = ap some (list_switched_off name client s.proxies)
