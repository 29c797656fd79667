-- ===== src/Relay/Backend.antt =====
-- The socket of a session on the side of the client, and what is written to it.
use nexus_link.Base.{ℕ, ◌<◌, ◌≡◌, refl, sym, ap, ◌∙◌, inl, inr}
use nexus_link.Base.{false, Option, none, some, List, [], ◌∷◌, ◌++◌, arith, nat_eq}
use nexus_link.Base.{Option-cases, Eq-nat, Eq-string, Eq-bytes, Eq-pair}
use nexus_link.Base.{length}
use nexus_link.Base.Dict.{lookup, insert, lookup-insert_self}
use nexus_link.Client.Backends.{
  Backend, UdpSide, to_backend, get_or_create_backend, handle_kind, write_backend,
}

-- a session that is there keeps its socket
pub found_backend :
    (now : ℕ) (dial : Option ℕ) (sid : List ℕ) (b : Backend) (u : UdpSide)
    → lookup sid u.sessions ≡ some b
    → get_or_create_backend now dial sid u ≡ (
      some b.conn,
      record u { sessions = insert sid (record b { last_active = now }) u.sessions },
    )
unfolding get_or_create_backend
found_backend now dial sid b u f = rw (f, get_or_create_backend) refl

dialled_backend :
    (now conn : ℕ) (sid : List ℕ) (u : UdpSide)
    → lookup sid u.sessions ≡ none
    → get_or_create_backend now (some conn) sid u ≡ (
      some conn,
      record u {
        sessions = insert sid (record { conn = conn; last_active = now }) u.sessions;
        sockets = u.sockets ++ (conn ∷ []);
      },
    )
unfolding get_or_create_backend
dialled_backend now conn sid u f = rw (f, get_or_create_backend) refl

no_backend :
    (now : ℕ) (dial : Option ℕ) (sid : List ℕ) (conn : ℕ) (u : UdpSide)
    → lookup sid u.sessions ≡ none
    → dial ≡ none
    → ¬ ((get_or_create_backend now dial sid u).0 ≡ some conn)
unfolding get_or_create_backend
no_backend now dial sid conn u f d h = absurd (ground (arith, f, d, h))

-- after a call that gives a socket, the session is there with it
pub backend_kept :
    (now : ℕ) (dial : Option ℕ) (sid : List ℕ) (conn : ℕ) (u : UdpSide)
    → (get_or_create_backend now dial sid u).0 ≡ some conn
    → (b : Backend) × (lookup sid (get_or_create_backend now dial sid u).1.sessions ≡ some b)
      × (b.conn ≡ conn)
backend_kept now dial sid conn u h = elim (Option-cases (lookup sid u.sessions)) [
  | inl (b, f) ↦
      let e = found_backend now dial sid b u f in
      let b' : Backend = record b { last_active = now } in
      let same : b.conn ≡ conn = ground (arith, sym (ap (λ z. z.0) e) ∙ h) in
      (b', ap (λ z. lookup sid z.1.sessions) e ∙ lookup-insert_self sid b' u.sessions, same)
  | inr f ↦ elim (Option-cases dial) [
    | inl (k, d) ↦
        let e : get_or_create_backend now dial sid u ≡ _ =
          ap (λ o. get_or_create_backend now o sid u) d ∙ dialled_backend now k sid u f in
        let b' : Backend = record { conn = k; last_active = now } in
        let same : k ≡ conn = ground (arith, sym (ap (λ z. z.0) e) ∙ h) in
        (b', ap (λ z. lookup sid z.1.sessions) e ∙ lookup-insert_self sid b' u.sessions, same)
    | inr d ↦ absurd (no_backend now dial sid conn u f d h)
  ]
]

written_to :
    (payload : List ℕ) (conn : ℕ) (g : Option ℕ × UdpSide)
    → g.0 ≡ some conn
    → (write_backend payload g).1 ≡ to_backend conn payload ∷ []
written_to payload conn (none, u) h = cc
written_to payload conn (some k, u) h =
    let e : k ≡ conn = ground (arith, h) in ap (λ z. to_backend z payload ∷ []) e

module _ (now : ℕ) (dial : Option ℕ) (sid payload : List ℕ) (conn : ℕ) (u : UdpSide) where
  -- a packet for a session is written to its socket
  pub packet_written :
      0 < length payload
      → (get_or_create_backend now dial sid u).0 ≡ some conn
      → (handle_kind now dial (record { kind = 2; session_id = sid; payload = payload }) u).1
        ≡ to_backend conn payload ∷ []
  unfolding handle_kind
  packet_written n h =
      let some_ : nat_eq (length payload) 0 ≡ false = ground (arith, n) in
      rw (some_, handle_kind) (written_to payload conn (get_or_create_backend now dial sid u) h)

pub registered :
    (now : ℕ) (dial : Option ℕ) (sid : List ℕ) (u : UdpSide)
    → handle_kind now dial (record { kind = 1; session_id = sid; payload = [] }) u
      ≡ ((get_or_create_backend now dial sid u).1, [])
unfolding handle_kind
registered now dial sid u = refl
