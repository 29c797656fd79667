-- ===== src/Server/Keys.antt =====
-- The name and the key of the client of a connection: clientNameFor and authForClientLocked of
-- cmd/server/main.go.
use nexus_link.Base.{String, ◌≡◌, ◌≢◌, refl, ap, ◌∙◌, ◌⊎◌, inl, inr}
use nexus_link.Base.{none, some, [], ◌∷◌, arith}
use nexus_link.Base.{Bool-cases, Option-cases, ◌==◌, Eq-nat, Eq-string, Eq-bytes, Eq-pair}
use nexus_link.Base.{All}
use nexus_link.Base.Dict.{Dict, lookup}
use nexus_link.Base.Members.{Member, here, later}
use nexus_link.Server.State.{ManagedClient, Server}
use nexus_link.Server.Identity.{client_name_for, auth_for_client, first_value}

-- the name of the client of a connection
abbrev pub IsNamed : String → Server → String → Type 0
IsNamed id s name =
    (lookup id s.client_names ≡ some name)
    ⊎ ((lookup id s.client_names ≡ none) × (name ≡ "default"))

-- the key of a client: the token of a managed client of that name, or the server's if there is none
abbrev pub IsKey : String → Server → String → Type 0
IsKey name s secret =
    ((name ≢ "")
      × (name ≢ "default")
      × ((e : String × ManagedClient) × Member e s.managed_by_token
          × (e.1.name ≡ name)
          × (secret ≡ e.1.token)))
    ⊎ ((secret ≡ s.token)
        × ((name ≡ "") ⊎ ((name ≡ "default") ⊎ All (λ e. e.1.name ≢ name) s.managed_by_token)))

pub client_name_for-IsNamed : (id : String) (s : Server) → IsNamed id s (client_name_for id s)
unfolding client_name_for
client_name_for-IsNamed id s = elim (Option-cases (lookup id s.client_names)) [
  | inl (name, e) ↦ rw e (inl refl)
  | inr e ↦ rw e (inr (refl, refl))
]

first_value-Member :
    (name : String) (m : Dict String ManagedClient) (e : String × ManagedClient)
    → first_value (λ mc. mc.name == name) m ≡ some e
    → Member e m × (e.1.name ≡ name)
first_value-Member name [] e h = absurd (ground (arith, h))
first_value-Member name ((t, mc) ∷ m) e h = elim (Bool-cases (mc.name == name)) [
  | inl q ↦
      let same : e ≡ (t, mc) = ground (arith, q, h) in
      (here same, ap (λ x. x.1.name) same ∙ (Eq-string.same_iff mc.name name).0 q)
  | inr q ↦ let (k, n) = first_value-Member name m e (ground (arith, q, h)) in (later k, n)
]

first_value-none :
    (name : String) (m : Dict String ManagedClient)
    → first_value (λ mc. mc.name == name) m ≡ none
    → All (λ e. e.1.name ≢ name) m
first_value-none name [] h = tt
first_value-none name ((t, mc) ∷ m) h = elim (Bool-cases (mc.name == name)) [
  | inl q ↦ absurd (ground (arith, q, h))
  | inr q ↦ (
    λ n. absurd (ground (arith, q, (Eq-string.same_iff mc.name name).1 n)),
    first_value-none name m (ground (arith, q, h)),
  )
]

pub auth_for_client-IsKey : (name : String) (s : Server) → IsKey name s (auth_for_client name s)
unfolding auth_for_client
auth_for_client-IsKey name s = elim (Bool-cases (name == "")) [
  | inl q ↦ rw q (inr (refl, inl ((Eq-string.same_iff name "").0 q)))
  | inr q ↦ elim (Bool-cases (name == "default")) [
    | inl d ↦ rw (q, d) (inr (refl, inr (inl ((Eq-string.same_iff name "default").0 d))))
    | inr d ↦
        let found = first_value (λ mc. mc.name == name) s.managed_by_token in
        elim (Option-cases found) [
          | inl (e, f) ↦
              let (m, n) = first_value-Member name s.managed_by_token e f in
              rw (q, d, f)
                (inl (
                  λ z. absurd (ground (arith, q, (Eq-string.same_iff name "").1 z)),
                  λ z. absurd (ground (arith, d, (Eq-string.same_iff name "default").1 z)),
                  (e, m, n, refl),
                ))
          | inr f ↦
              rw (q, d, f) (inr (refl, inr (inr (first_value-none name s.managed_by_token f))))
        ]
  ]
]
