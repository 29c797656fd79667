-- ===== src/Store/Quota.antt =====
-- Clients: names and tokens stay unique, and a new client can log in.
use nexus_link.Base.{ℕ, ◌+◌, String, ◌≡◌, refl, inl, inr}
use nexus_link.Base.{
  Bool, true, false, ◌&&◌, ◌||◌, Option, none, some, List, [], ◌∷◌, arith, nat_eq,
}
use nexus_link.Base.{Bool-cases, ◌==◌, Eq-nat, Eq-string, Eq-bytes, ==_refl}
use nexus_link.Base.Dict.{is_some}
use nexus_link.Base.Tables.{
  find, find-append_none, find-and_none, Distinct, All-find-none, Distinct-append, Distinct-keep,
  Distinct-update,
}
use nexus_link.Store.Tables.{Client, Store}
use nexus_link.Store.Clients.{
  has_name, has_token, get_client, get_client_by_token, add_client_with_owner, delete_client,
  update_client_quota, add_traffic,
}

-- the calls that change the table of clients
pub data Change : Type 0 where
  adds : Bool → String → String → String → ℕ → ℕ → String → Change
  deletes : Bool → String → Change
  limits : Bool → String → String → ℕ → ℕ → Change
  counts : Bool → String → String → ℕ → ℕ → Change

unfoldable pub run_change : Change → Store → Store
unfolding add_client_with_owner delete_client update_client_quota add_traffic
run_change (adds f now name token mt mb owner) s =
    (add_client_with_owner f now name token mt mb owner s).1
run_change (deletes f name) s = (delete_client f name s).1
run_change (limits f now name mt mb) s = (update_client_quota f now name mt mb s).1
run_change (counts f now name i o) s = (add_traffic f now name i o s).1

unfoldable pub run_changes : List Change → Store → Store
unfolding run_change
run_changes [] s = s
run_changes (c ∷ cs) s = run_changes cs (run_change c s)

abbrev name_of : Client → String
name_of c = c.name

abbrev token_of : Client → String
token_of c = c.token

pub record IsKeyed (s : Store) : Type 0 where
  pub names : Distinct name_of s.clients
  pub tokens : Distinct token_of s.clients

is_some-none : {A : Type 0} (o : Option A) → is_some o ≡ false → o ≡ none
is_some-none none h = refl
is_some-none (some a) h = cc

IsKeyed-add :
    (f : Bool) (now name token : String) (mt mb : ℕ) (owner : String) (s : Store)
    → IsKeyed s
    → IsKeyed (add_client_with_owner f now name token mt mb owner s).1
unfolding add_client_with_owner
IsKeyed-add f now name token mt mb owner s k =
    elim (Bool-cases (
      f
      || is_some (find (has_name name) s.clients)
      || is_some (find (has_token token) s.clients))) [
        | inl q ↦ rw (q, add_client_with_owner) k
        | inr q ↦
            let no_name = is_some-none (find (has_name name) s.clients) (ground (arith, q)) in
            let no_token = is_some-none (find (has_token token) s.clients) (ground (arith, q)) in
            rw (q, add_client_with_owner)
              (record {
                names =
                    Distinct-append name_of _ s.clients k.names
                      (All-find-none name_of name s.clients no_name);
                tokens =
                    Distinct-append token_of _ s.clients k.tokens
                      (All-find-none token_of token s.clients no_token);
              })
      ]

IsKeyed-counts :
    (f : Bool) (now name : String) (i o : ℕ) (s : Store)
    → IsKeyed s
    → IsKeyed (add_traffic f now name i o s).1
unfolding add_traffic
IsKeyed-counts f now name i o s k = elim (Bool-cases (nat_eq i 0 && nat_eq o 0)) [
  | inl q ↦ rw (q, add_traffic) k
  | inr q ↦
      rw (q, add_traffic)
        (elim (Bool-cases f) [
          | inl r ↦ rw (r, add_traffic) k
          | inr r ↦
              rw (r, add_traffic)
                (record {
                  names = Distinct-update name_of _ _ s.clients (λ c. refl) k.names;
                  tokens = Distinct-update token_of _ _ s.clients (λ c. refl) k.tokens;
                })
        ])
]

IsKeyed-change : (c : Change) (s : Store) → IsKeyed s → IsKeyed (run_change c s)
unfolding run_change delete_client update_client_quota add_traffic
IsKeyed-change (adds f now name token mt mb owner) s k =
    IsKeyed-add f now name token mt mb owner s k
IsKeyed-change (deletes true name) s k = k
IsKeyed-change (deletes false name) s k = record {
  names = Distinct-keep name_of _ s.clients k.names;
  tokens = Distinct-keep token_of _ s.clients k.tokens;
}
IsKeyed-change (limits true now name mt mb) s k = k
IsKeyed-change (limits false now name mt mb) s k = record {
  names = Distinct-update name_of _ _ s.clients (λ c. refl) k.names;
  tokens = Distinct-update token_of _ _ s.clients (λ c. refl) k.tokens;
}
IsKeyed-change (counts f now name i o) s k = IsKeyed-counts f now name i o s k

-- Whatever calls change the clients, and whichever of them fail, no two clients ever have the same name
-- or the same token.
pub run_changes-IsKeyed : (cs : List Change) (s : Store) → IsKeyed s → IsKeyed (run_changes cs s)
unfolding run_changes
run_changes-IsKeyed [] s k = k
run_changes-IsKeyed (c ∷ cs) s k = run_changes-IsKeyed cs _ (IsKeyed-change c s k)

-- a client that is added was not there under its name or its token
added :
    (f : Bool) (now name token : String) (mt mb : ℕ) (owner : String) (s : Store)
    → (add_client_with_owner f now name token mt mb owner s).0 ≡ some tt
    → (f || is_some (find (has_name name) s.clients) || is_some (find (has_token token) s.clients))
      ≡ false
unfolding add_client_with_owner
added f now name token mt mb owner s h = ground arith

-- When a client is added, neither its name nor its token was in use; its token finds it then, active,
-- with the limits and the owner that were given, and without traffic.
pub get_client_by_token-add :
    (f : Bool) (now name token : String) (mt mb : ℕ) (owner : String) (s : Store)
    → (add_client_with_owner f now name token mt mb owner s).0 ≡ some tt
    → (get_client f name s ≡ some none)
      × (get_client_by_token f token s ≡ some none)
      × (get_client_by_token f token (add_client_with_owner f now name token mt mb owner s).1
          ≡ some (
              some (record {
                id = s.client_seq + 1;
                name = name;
                token = token;
                max_tunnels = mt;
                max_traffic_bytes = mb;
                bytes_in = 0;
                bytes_out = 0;
                status = "active";
                owner = owner;
                created_at = now;
                updated_at = now;
              })))
unfolding add_client_with_owner get_client get_client_by_token
get_client_by_token-add f now name token mt mb owner s h =
    let q = added f now name token mt mb owner s h in
    let no_name = is_some-none (find (has_name name) s.clients) (ground (arith, q)) in
    let no_token = is_some-none (find (has_token token) s.clients) (ground (arith, q)) in
    let f_false : f ≡ false = ground (arith, q) in
    let none_active =
      find-and_none (has_token token) (λ c. c.status == "active") s.clients no_token in
    (
      rw (f_false, no_name) refl,
      rw (f_false, none_active) refl,
      rw (q, add_client_with_owner)
          (rw
            (
              f_false,
              find-append_none (λ c. has_token token c && c.status == "active") s.clients _
                  none_active,
            )
            (rw (==_refl token) refl)),
    )
