-- ===== src/Server/Acceptance.antt =====
-- Which tunnels handleNewProxy of cmd/server/main.go creates, and what they are.
use nexus_link.Base.{ℕ, String, ◌≡◌, refl, ap, ◌∙◌, ◌⊎◌, ◌↔◌, inl, inr}
use nexus_link.Base.{Bool, true, false, not, ◌&&◌, ◌||◌, none, some, ◌∷◌, arith, if◌then◌else◌}
use nexus_link.Base.{Bool-cases, Option-cases, ◌==◌, Eq-nat, Eq-string, Eq-bytes, Eq-pair}
use nexus_link.Base.Dict.{lookup, insert, lookup-insert_self}
use nexus_link.Server.State.{Proxy, Server}
use nexus_link.Server.Identity.{client_name_for, auth_for_client}
use nexus_link.Server.Tunnels.{
  Request, Os, Answer, created, proxy_allowed, new_proxy, install, open_second, open_main,
  handle_new_proxy,
}
use nexus_link.Server.Ownership.{is_created}
use nexus_link.Server.Permission.{IsPermitted, proxy_allowed-IsPermitted}
use nexus_link.Server.Keys.{IsNamed, IsKey, client_name_for-IsNamed, auth_for_client-IsKey}

-- the sockets of a tunnel can be had
abbrev pub IsOpened : Os → Request → ℕ → ℕ × ℕ → Type 0
IsOpened os r main second =
    ((r.type ≡ "tcp") ⊎ ((r.type ≡ "udp") × (os.resolved ≡ true) × (os.data_resolved ≡ true)))
    × (os.main ≡ some main)
    × (os.second ≡ some second)

-- the server with a tunnel that has its sockets
abbrev with_tunnel : String → Request → ℕ → ℕ × ℕ → Server → Server
with_tunnel id r main second s = record s {
  proxies = insert r.name (new_proxy id r s main second.0 second.1) s.proxies;
  sockets = second.0 ∷ main ∷ s.sockets;
}

open_main-IsOpened :
    (os : Os) (id : String) (r : Request) (s : Server)
    → (r.type == "tcp" || r.type == "udp") ≡ true
    → is_created (open_main os id r s).0 ≡ true
    → (main : ℕ) × (second : ℕ × ℕ) × IsOpened os r main second
unfolding open_main open_second
open_main-IsOpened os id r s t h =
    let first = if r.type == "udp" && not os.resolved then none else os.main in
    let other = if r.type == "udp" && not os.data_resolved then none else os.second in
    elim (Option-cases first) [
      | inr e ↦ ground (arith, e, h)
      | inl (main, e) ↦ elim (Option-cases other) [
        | inr f ↦ ground (arith, e, f, h)
        | inl (second, f) ↦ (
          main,
          second,
          (
            elim (Bool-cases (r.type == "udp")) [
              | inl q ↦ inr (
                (Eq-string.same_iff r.type "udp").0 q,
                ground (arith, q, e),
                ground (arith, q, f),
              )
              | inr q ↦ inl ((Eq-string.same_iff r.type "tcp").0 (ground (arith, q, t)))
            ],
            ground (arith, e),
            ground (arith, f),
          ),
        )
      ]
    ]

open_main_opened :
    (os : Os) (id : String) (r : Request) (s : Server) (main : ℕ) (second : ℕ × ℕ)
    → IsOpened os r main second
    → open_main os id r s ≡ (
      created r.remote_port (if r.type == "udp" then second.1 else 0),
      with_tunnel id r main second s,
    )
unfolding open_main open_second install client_name_for auth_for_client
open_main_opened os id r s main second (t, m, k) =
    let udp : (r.type == "udp" && (not os.resolved || not os.data_resolved)) ≡ false = elim t [
      | inl e ↦
          let other : (r.type == "udp") ≡ false = ap (λ x. x == "udp") e in ground (arith, other)
      | inr (e, a, b) ↦ ground (arith, a, b)
    ] in
    let first : (if r.type == "udp" && not os.resolved then none else os.main) ≡ some main =
      ground (arith, udp, m) in
    let last : (if r.type == "udp" && not os.data_resolved then none else os.second) ≡ some second =
      ground (arith, udp, k) in
    rw (first, open_main) (rw (last, open_second) refl)

module _ (matches : String → String → Bool) where
  created_parts :
      (os : Os) (id : String) (r : Request) (s : Server)
      → is_created (handle_new_proxy matches os id r s).0 ≡ true
      → (proxy_allowed matches s.acl r.name r.remote_port ≡ true)
        × (lookup r.name s.proxies ≡ none)
        × ((r.type == "tcp" || r.type == "udp") ≡ true)
        × (is_created (open_main os id r s).0 ≡ true)
  unfolding handle_new_proxy
  created_parts os id r s h = elim (Bool-cases (proxy_allowed matches s.acl r.name r.remote_port)) [
    | inr q ↦ ground (arith, q, h)
    | inl q ↦ elim (Option-cases (lookup r.name s.proxies)) [
      | inl (p, e) ↦ ground (arith, q, e, h)
      | inr e ↦ elim (Bool-cases (r.type == "tcp" || r.type == "udp")) [
        | inr t ↦ ground (arith, q, e, t, h)
        | inl t ↦ (q, e, t, ground (arith, q, e, t, h))
      ]
    ]
  ]

  handle_new_proxy_opened :
      (os : Os) (id : String) (r : Request) (s : Server) (main : ℕ) (second : ℕ × ℕ)
      → IsPermitted matches s.acl r.name r.remote_port
      → lookup r.name s.proxies ≡ none
      → IsOpened os r main second
      → handle_new_proxy matches os id r s ≡ (
        created r.remote_port (if r.type == "udp" then second.1 else 0),
        with_tunnel id r main second s,
      )
  unfolding handle_new_proxy
  handle_new_proxy_opened os id r s main second a f o =
      let allowed = (proxy_allowed-IsPermitted matches s.acl r.name r.remote_port).1 a in
      let known : (r.type == "tcp" || r.type == "udp") ≡ true = elim o.0 [
        | inl e ↦ ground (arith, (Eq-string.same_iff r.type "tcp").1 e)
        | inr w ↦ ground (arith, (Eq-string.same_iff r.type "udp").1 w.0)
      ] in
      rw (allowed, handle_new_proxy)
        (rw (f, handle_new_proxy)
          (rw (known, handle_new_proxy) (open_main_opened os id r s main second o)))

  pub handle_new_proxy_created :
      (os : Os) (id : String) (r : Request) (s : Server)
      → (is_created (handle_new_proxy matches os id r s).0 ≡ true) ↔ (
          IsPermitted matches s.acl r.name r.remote_port
          × (lookup r.name s.proxies ≡ none)
          × ((main : ℕ) × (second : ℕ × ℕ) × IsOpened os r main second
              × ((p : Proxy) × (lookup r.name (handle_new_proxy matches os id r s).1.proxies
                    ≡ some p)
                  × (p.owner ≡ id)
                  × (p.listener ≡ main)
                  × (p.data_listener ≡ second.0)
                  × IsNamed id s p.client_name
                  × IsKey p.client_name s p.secret)))
  handle_new_proxy_created os id r s = (
    λ h.
        let (q, f, t, o) = created_parts os id r s h in
        let a = (proxy_allowed-IsPermitted matches s.acl r.name r.remote_port).0 q in
        let (main, second, w) = open_main-IsOpened os id r s t o in
        let p = new_proxy id r s main second.0 second.1 in
        let state = handle_new_proxy_opened os id r s main second a f w in
        (
          a,
          f,
          (
            main,
            second,
            w,
            (
              p,
              ap (λ (x : Answer × Server). lookup r.name x.1.proxies) state
                  ∙ lookup-insert_self r.name p s.proxies,
              refl,
              refl,
              refl,
              client_name_for-IsNamed id s,
              auth_for_client-IsKey p.client_name s,
            ),
          ),
        ),
    λ (a, f, (main, second, w, rest)).
        ap (λ (x : Answer × Server). is_created x.0)
          (handle_new_proxy_opened os id r s main second a f w),
  )
