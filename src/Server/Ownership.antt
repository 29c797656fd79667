-- ===== src/Server/Ownership.antt =====
-- Tunnels come and go with their sockets.
use nexus_link.Base.{ℕ, String, ◌≡◌, refl, ap, ◌⊎◌, inl, inr}
use nexus_link.Base.{Bool, true, false, not, ◌&&◌, ◌||◌, none, List, ◌∷◌, arith, if◌then◌else◌}
use nexus_link.Base.{Bool-cases, Option-cases, ◌==◌, Eq-nat, Eq-string, Eq-bytes, Eq-pair}
use nexus_link.Base.Dict.{is_some, lookup, insert, lookup-insert_self, remove-insert_new}
use nexus_link.Server.State.{Proxy, Server}
use nexus_link.Server.Identity.{client_name_for, auth_for_client}
use nexus_link.Server.Tunnels.{
  Request, Os, Answer, created, close_socket, proxy_allowed, new_proxy, install, open_second,
  open_main, handle_new_proxy, cleanup_proxy, close_proxy,
}

abbrev pub is_created : Answer → Bool
is_created (created port second) = true
is_created _ = false

-- a tunnel whose sockets were opened for it
pub record Created (id : String) (r : Request) (s : Server) (out : Answer × Server) : Type 0 where
  pub main : ℕ
  pub second : ℕ
  pub port : ℕ
  pub state : out.1 ≡ record s {
    proxies = insert r.name (new_proxy id r s main second port) s.proxies;
    sockets = second ∷ main ∷ s.sockets;
  }

close_socket_first : (h : ℕ) (hs : List ℕ) → close_socket h (h ∷ hs) ≡ hs
unfolding close_socket
close_socket_first h hs = ground arith

-- the outcome of a step: a tunnel with its sockets, or nothing has changed
abbrev pub Outcome : String → Request → Server → Answer × Server → Type 0
Outcome id r s out =
    ((is_created out.0 ≡ true) × Created id r s out) ⊎ ((is_created out.0 ≡ false) × (out.1 ≡ s))

Outcome-second :
    (os : Os) (id : String) (r : Request) (main : ℕ) (s : Server)
    → Outcome id r s (open_second os id r main (record s { sockets = main ∷ s.sockets }))
unfolding open_second install client_name_for auth_for_client
Outcome-second os id r main s =
    elim (Option-cases (if r.type == "udp" && not os.data_resolved then none else os.second)) [
      | inl (q, e) ↦
          rw (e, open_second)
            (inl (refl, record { main = main; second = q.0; port = q.1; state = refl }))
      | inr e ↦
          rw (e, open_second)
            (inr (refl, ap (λ k. record s { sockets = k }) (close_socket_first main s.sockets)))
    ]

Outcome-main :
    (os : Os) (id : String) (r : Request) (s : Server) → Outcome id r s (open_main os id r s)
unfolding open_main
Outcome-main os id r s =
    elim (Option-cases (if r.type == "udp" && not os.resolved then none else os.main)) [
      | inl (main, e) ↦ rw (e, open_main) (Outcome-second os id r main s)
      | inr e ↦ rw (e, open_main) (inr (refl, refl))
    ]

close_both : (h k : ℕ) (hs : List ℕ) → close_socket h (close_socket k (h ∷ k ∷ hs)) ≡ hs
unfolding close_socket
close_both h k hs = ground arith

close_created :
    (name : String) (p : Proxy) (s : Server)
    → lookup name s.proxies ≡ none
    → close_proxy name (record s {
      proxies = insert name p s.proxies;
      sockets = p.data_listener ∷ p.listener ∷ s.sockets;
    })
      ≡ (true, s)
unfolding close_proxy cleanup_proxy
close_created name p s free =
    rw (lookup-insert_self name p s.proxies, close_proxy)
      (rw (remove-insert_new name p s.proxies free) (
        ap (λ k. (true, record s { sockets = k }))
          (close_both p.data_listener p.listener s.sockets)))

module _ (matches : String → String → Bool) where
  pub Outcome-new :
      (os : Os) (id : String) (r : Request) (s : Server)
      → Outcome id r s (handle_new_proxy matches os id r s)
  unfolding handle_new_proxy
  Outcome-new os id r s = elim (Bool-cases (proxy_allowed matches s.acl r.name r.remote_port)) [
    | inr q ↦ rw (q, handle_new_proxy) (inr (refl, refl))
    | inl q ↦
        rw (q, handle_new_proxy)
          (elim (Bool-cases (is_some (lookup r.name s.proxies))) [
            | inl p ↦ rw (p, handle_new_proxy) (inr (refl, refl))
            | inr p ↦
                rw (p, handle_new_proxy)
                  (elim (Bool-cases (r.type == "tcp" || r.type == "udp")) [
                    | inl t ↦ rw (t, handle_new_proxy) (Outcome-main os id r s)
                    | inr t ↦ rw (t, handle_new_proxy) (inr (refl, refl))
                  ])
          ])
  ]

  -- A request for a tunnel that is refused, for whatever reason, leaves the server as it was: no socket
  -- that was opened for it stays open.
  pub handle_new_proxy_refused :
      (os : Os) (id : String) (r : Request) (s : Server)
      → is_created (handle_new_proxy matches os id r s).0 ≡ false
      → (handle_new_proxy matches os id r s).1 ≡ s
  handle_new_proxy_refused os id r s h = elim (Outcome-new os id r s) [
    | inl (t, c) ↦ cc
    | inr (f, e) ↦ e
  ]

  guards :
      (os : Os) (id : String) (r : Request) (s : Server)
      → is_created (handle_new_proxy matches os id r s).0 ≡ true
      → (proxy_allowed matches s.acl r.name r.remote_port ≡ true) × (lookup r.name s.proxies ≡ none)
  unfolding handle_new_proxy
  guards os id r s h = elim (Bool-cases (proxy_allowed matches s.acl r.name r.remote_port)) [
    | inr q ↦ ground (arith, q, h)
    | inl q ↦ (q, ground (arith, q, h))
  ]

  -- Closing a tunnel that was just created gives back the server as it was before the request, sockets
  -- included.
  pub close_proxy-handle_new_proxy :
      (os : Os) (id : String) (r : Request) (s : Server)
      → is_created (handle_new_proxy matches os id r s).0 ≡ true
      → close_proxy r.name (handle_new_proxy matches os id r s).1 ≡ (true, s)
  close_proxy-handle_new_proxy os id r s h = elim (Outcome-new os id r s) [
    | inr (f, e) ↦ cc
    | inl (t, c) ↦
        let (allowed, free) = guards os id r s h in
        rw c.state (close_created r.name (new_proxy id r s c.main c.second c.port) s free)
  ]
