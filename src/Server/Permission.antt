-- ===== src/Server/Permission.antt =====
-- What proxyAllowed of cmd/server/main.go allows.
use nexus_link.Base.{ℕ, String, ◌≡◌, refl, ◌⊎◌, ◌↔◌, inl, inr}
use nexus_link.Base.{Bool, true, ◌||◌, List, [], ◌∷◌, arith}
use mathlib.Core.Path.{subst}
use nexus_link.Base.{Eq-nat, Eq-string, Eq-bytes, Eq-pair}
use nexus_link.Base.{length, any, nat_eq}
use nexus_link.Base.Members.{Member, any-Member}
use nexus_link.Server.State.{Acl}
use nexus_link.Server.Tunnels.{proxy_allowed}

-- the name and the port are allowed
abbrev pub IsPermitted : (String → String → Bool) → Acl → String → ℕ → Type 0
IsPermitted matches acl name port =
    ((acl.allow_names ≡ [])
      ⊎ ((pattern : String) × Member pattern acl.allow_names × (matches pattern name ≡ true)))
    × ((acl.allow_ports ≡ []) ⊎ Member port acl.allow_ports)

module _ (matches : String → String → Bool) where
  name_passed :
      (name : String) (xs : List String)
      → (nat_eq (length xs) 0 || any (λ p. matches p name) xs) ≡ true
        ↔ ((xs ≡ []) ⊎ ((pattern : String) × Member pattern xs × (matches pattern name ≡ true)))
  name_passed name [] = (λ h. inl refl, λ h. refl)
  name_passed name (x ∷ xs) = (
    λ h. inr ((any-Member (λ p. matches p name) (x ∷ xs)).0 (ground (arith, h))),
    λ h. elim h [
      | inl e ↦ cc
      | inr w ↦ ground (arith, (any-Member (λ p. matches p name) (x ∷ xs)).1 w)
    ],
  )

  port_passed :
      (port : ℕ) (xs : List ℕ)
      → (nat_eq (length xs) 0 || any (λ p. nat_eq p port) xs) ≡ true ↔ ((xs ≡ []) ⊎ Member port xs)
  port_passed port [] = (λ h. inl refl, λ h. refl)
  port_passed port (x ∷ xs) = (
    λ h.
        let (y, m, q) = (any-Member (λ p. nat_eq p port) (x ∷ xs)).0 (ground (arith, h)) in
        let same : y ≡ port = ground (arith, q) in inr (subst (λ z. Member z (x ∷ xs)) same m),
    λ h. elim h [
      | inl e ↦ cc
      | inr m ↦ ground (arith, (any-Member (λ p. nat_eq p port) (x ∷ xs)).1 (port, m, ground arith))
    ],
  )

  pub proxy_allowed-IsPermitted :
      (acl : Acl) (name : String) (port : ℕ)
      → (proxy_allowed matches acl name port ≡ true) ↔ IsPermitted matches acl name port
  unfolding proxy_allowed
  proxy_allowed-IsPermitted acl name port =
      let (n, n') = name_passed name acl.allow_names in
      let (p, p') = port_passed port acl.allow_ports in
      (λ h. (n (ground (arith, h)), p (ground (arith, h))), λ (a, b). ground (arith, n' a, p' b))
