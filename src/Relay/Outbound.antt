-- ===== src/Relay/Outbound.antt =====
-- A datagram of a user, from the public socket of the server to the backend of the client.
use nexus_link.Base.{ℕ, ◌+◌, ◌^◌, ◌≤◌, ◌<◌, String, ◌≡◌, refl, ap, ◌∙◌}
use nexus_link.Base.{
  Bool, true, false, Option, none, some, List, [], ◌∷◌, ◌++◌, arith, ltb, nat_eq, if◌then◌else◌,
}
use nexus_link.Base.{Eq-nat, Eq-string, Eq-bytes, Eq-pair}
use nexus_link.Base.{length, length-append}
use nexus_link.Base.Word.{u16}
use nexus_link.Wire.Endian.{to_be, length-to_be}
use nexus_link.Auth.Sign.{Hmac, Auth, sign}
use nexus_link.Auth.Packet.{IsFresh, IsClock, verify-sign, length-sign}
use nexus_link.Protocol.Envelope.{UdpEnvelope, marshal_envelope}
use nexus_link.Protocol.Datagram.{unmarshal-marshal_envelope}
use nexus_link.Udp.Channel.{
  Channel, Output, to_client, to_user, get_or_create_session, send_begin, send_enqueue,
  send_to_client, announce, handle_user_packet, max_datagram,
}
use nexus_link.Udp.Registration.{SameQueue-get_or_create}
use nexus_link.Client.Backends.{UdpSide, Written, handle_kind, handle_opened, handle_datagram}

-- the client takes what the server has written to it, in order; nothing else reaches it
unfoldable pub deliver_all :
    (hmac : Hmac) → Auth → ℕ → ℕ → Option ℕ → List Output → UdpSide → UdpSide × List Written
deliver_all hmac a time now dial [] u = (u, [])
deliver_all hmac a time now dial (to_user bytes addr ∷ outs) u =
    deliver_all hmac a time now dial outs u
deliver_all hmac a time now dial (to_client bytes addr ∷ outs) u =
    let (u1, w) = handle_datagram hmac a time now dial bytes u in
    let (u2, w') = deliver_all hmac a time now dial outs u1 in (u2, w ++ w')

module _ (hmac : Hmac) (a : Auth) where
  -- a signed envelope that arrives in time is handled by its kind
  pub handle_datagram-sign :
      (t time now : ℕ) (dial : Option ℕ) (env : UdpEnvelope) (u : UdpSide)
      → IsClock time
      → IsFresh time t
      → env.kind < 256
      → length env.session_id < 2 ^ 16
      → handle_datagram hmac a time now dial (sign hmac a t (marshal_envelope env)) u
        ≡ handle_kind now dial env u
  unfolding handle_datagram
  handle_datagram-sign t time now dial env u c f k l =
      rw (verify-sign hmac a time t (marshal_envelope env) c f, handle_opened)
        (rw (unmarshal-marshal_envelope env k l, handle_opened) refl)

  send_begin-known :
      (t : ℕ) (env : UdpEnvelope) (c : Channel) (addr : String)
      → c.client_addr ≡ some addr
      → length (sign hmac a t (marshal_envelope env)) ≤ max_datagram
      → send_begin hmac a t env c
        ≡ (false, to_client (sign hmac a t (marshal_envelope env)) addr ∷ [])
  unfolding send_begin
  send_begin-known t env c addr k l =
      let d = sign hmac a t (marshal_envelope env) in
      let fits : ltb max_datagram (length d) ≡ false = ground (arith, l) in
      rw (fits, send_begin)
        (ap {A = Option String}
          (λ o. elim o as (λ _. Bool × List Output) [
            | none ↦ (true, [])
            | some addr' ↦ (false, to_client d addr' ∷ [])
          ])
          k)

  -- what the server sends when the address of the client is known
  send_to_client-known :
      (t : ℕ) (env : UdpEnvelope) (c : Channel) (addr : String)
      → c.client_addr ≡ some addr
      → length (sign hmac a t (marshal_envelope env)) ≤ max_datagram
      → send_to_client hmac a t env c
        ≡ (c, to_client (sign hmac a t (marshal_envelope env)) addr ∷ [])
  unfolding send_to_client
  send_to_client-known t env c addr k l =
      ap (λ (z : Bool × List Output). (if z.0 then send_enqueue hmac a env c else c, z.1))
        (send_begin-known t env c addr k l)

  announce-known :
      (t : ℕ) (is_new : Bool) (env : UdpEnvelope) (c : Channel) (addr : String)
      → c.client_addr ≡ some addr
      → length (sign hmac a t (marshal_envelope env)) ≤ max_datagram
      → announce hmac a t is_new env c
        ≡ (c, if is_new then to_client (sign hmac a t (marshal_envelope env)) addr ∷ [] else [])
  unfolding announce
  announce-known t true env c addr k l = send_to_client-known t env c addr k l
  announce-known t false env c addr k l = refl

  -- what a datagram of a user makes the server write
  unfoldable pub user_outputs : ℕ → Bool → List ℕ → List ℕ → String → List Output
  user_outputs t is_new sid payload addr =
      let register : UdpEnvelope = record { kind = 1; session_id = sid; payload = [] } in
      let packet : UdpEnvelope = record { kind = 2; session_id = sid; payload = payload } in
      (if is_new then to_client (sign hmac a t (marshal_envelope register)) addr ∷ [] else [])
      ++ (to_client (sign hmac a t (marshal_envelope packet)) addr ∷ [])

  pub length-packed :
      (t : ℕ) (env : UdpEnvelope)
      → length (sign hmac a t (marshal_envelope env))
        ≡ 43 + (length env.session_id + length env.payload)
  unfolding marshal_envelope
  length-packed t env = omega (
    arith,
    length-sign hmac a t (marshal_envelope env),
    length-append (to_be 2 (u16 (length env.session_id))) (env.session_id ++ env.payload),
    length-append env.session_id env.payload,
    length-to_be 2 (u16 (length env.session_id)),
  )

  -- the rest of a round, when the session is there
  abbrev in_session : ℕ → List ℕ → (List ℕ × Bool) × Channel → Channel × List Output
  in_session t payload ((sid, is_new), c1) =
      let register : UdpEnvelope = record { kind = 1; session_id = sid; payload = [] } in
      let packet : UdpEnvelope = record { kind = 2; session_id = sid; payload = payload } in
      let (c2, out) = announce hmac a t is_new register c1 in
      let (c3, out') = send_to_client hmac a t packet c2 in (c3, out ++ out')

  in_session-known :
      (t : ℕ) (payload : List ℕ) (sid : List ℕ) (is_new : Bool) (c1 : Channel) (addr : String)
      → c1.client_addr ≡ some addr
      → length payload ≤ 65448
      → length sid ≡ 16
      → in_session t payload ((sid, is_new), c1) ≡ (c1, user_outputs t is_new sid payload addr)
  unfolding user_outputs
  in_session-known t payload sid is_new c1 addr k m l =
      let register : UdpEnvelope = record { kind = 1; session_id = sid; payload = [] } in
      let packet : UdpEnvelope = record { kind = 2; session_id = sid; payload = payload } in
      let first =
        announce-known t is_new register c1 addr k (omega (arith, l, length-packed t register)) in
      let second =
        send_to_client-known t packet c1 addr k (omega (arith, l, m, length-packed t packet)) in
      ap
        (λ (z : Channel × List Output).
          let w = send_to_client hmac a t packet z.0 in (w.0, z.1 ++ w.1))
        first
      ∙ ap
          (λ (w : Channel × List Output). (
            w.0,
            (if is_new then to_client (sign hmac a t (marshal_envelope register)) addr ∷ [] else [])
                ++ w.1,
          ))
          second

  pub handle_user_packet-known :
      (t clock : ℕ) (user : String) (payload : List ℕ) (c : Channel) (addr : String)
      → c.client_addr ≡ some addr
      → 0 < length payload
      → length payload ≤ 65448
      → let r = get_or_create_session clock user c in
        length r.0.0 ≡ 16
        → handle_user_packet hmac a t clock user payload c
          ≡ (r.1, user_outputs t r.0.1 r.0.0 payload addr)
  unfolding handle_user_packet
  handle_user_packet-known t clock user payload c addr k n m l =
      let r = get_or_create_session clock user c in
      let some_ : nat_eq (length payload) 0 ≡ false = ground (arith, n) in
      rw (some_, handle_user_packet)
        (in_session-known t payload r.0.0 r.0.1 r.1 addr
          ((SameQueue-get_or_create clock user c).same_client ∙ k) m l)
