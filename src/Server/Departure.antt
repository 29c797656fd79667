-- ===== src/Server/Departure.antt =====
-- The end of a control connection takes the tunnels of its client.
use nexus_link.Base.{String, ◌≡◌, refl, ◌∙◌, ◌↔◌, inl, inr}
use nexus_link.Base.{false, Option, none, some, List, [], ◌∷◌, arith, if◌then◌else◌}
use nexus_link.Base.{Bool-cases, Option-cases, ◌==◌, Eq-nat, Eq-string, Eq-bytes, Eq-pair}
use nexus_link.Base.Dict.{visits, visits-keys}
use nexus_link.Base.Dict.{lookup, lookup-remove, keys}
use nexus_link.Server.State.{Proxy, Server}
use nexus_link.Server.Tunnels.{cleanup_proxy, cleanup_owned, disconnect}

-- what a connection that ends leaves of a tunnel
abbrev kept : String → Option Proxy → Option Proxy
kept id none = none
kept id (some p) = if p.owner == id then none else some p

lookup-cleanup_owned :
    (id : String) (order : List String) (s : Server) (name : String)
    → lookup name (cleanup_owned id order s).proxies
      ≡ (if visits order name then kept id (lookup name s.proxies) else lookup name s.proxies)
unfolding cleanup_owned visits cleanup_proxy
lookup-cleanup_owned id [] s name = refl
lookup-cleanup_owned id (k ∷ rest) s name = elim (Option-cases (lookup k s.proxies)) [
  | inr h ↦
      rw (h, cleanup_owned)
        (ground (arith, lookup-cleanup_owned id rest s name, Eq-string.same_iff k name))
  | inl (p, h) ↦
      rw (h, cleanup_owned)
        (elim (Bool-cases (p.owner == id)) [
          | inl q ↦
              rw (q, cleanup_owned)
                (lookup-cleanup_owned id rest (cleanup_proxy k p s) name
                  ∙ ground (arith, lookup-remove k name s.proxies, Eq-string.same_iff k name))
          | inr q ↦
              rw (q, cleanup_owned)
                (lookup-cleanup_owned id rest s name ∙ ground (arith, Eq-string.same_iff k name))
        ])
]

-- When a control connection ends, exactly the tunnels of other connections remain, unchanged.
pub lookup-disconnect :
    (id : String) (s : Server) (name : String) (p : Proxy)
    → (lookup name (disconnect id s).proxies ≡ some p)
      ↔ ((lookup name s.proxies ≡ some p) × ((p.owner == id) ≡ false))
unfolding disconnect
lookup-disconnect id s name p =
    let after = lookup-cleanup_owned id (keys s.proxies) s name in
    (
      λ h. elim (Option-cases (lookup name s.proxies)) [
        | inl (q, l) ↦ ground (arith, after, visits-keys s.proxies name q l)
        | inr l ↦ ground (arith, after)
      ],
      λ h. ground (arith, after, visits-keys s.proxies name p h.0),
    )
