-- ===== src/Relay/Delivery.antt =====
-- What the server writes for a datagram of a user reaches the backend of the client, and the answer
-- of the backend reaches the user.
use nexus_link.Base.{ℕ, zero, suc, ◌+◌, ◌^◌, ◌≤◌, ◌<◌, String, ◌≡◌, refl, sym, ap, ◌∙◌}
use nexus_link.Base.{Bool, true, false, Option, none, some, List, [], ◌∷◌, ◌++◌, arith, ltb, nat_eq}
use nexus_link.Base.{Eq-nat, Eq-string, Eq-bytes, Eq-pair}
use nexus_link.Base.{length}
use nexus_link.Auth.Sign.{Hmac, Auth, sign, verify}
use nexus_link.Auth.Packet.{IsFresh, IsClock, verify-sign}
use nexus_link.Protocol.Envelope.{UdpEnvelope, marshal_envelope}
use nexus_link.Protocol.Datagram.{unmarshal-marshal_envelope}
use nexus_link.Udp.Channel.{
  Channel, Output, to_user, to_hex, session_id, get_or_create_session, handle_user_packet,
  handle_envelope, handle_verified, handle_data_packet, register_client, flush,
}
use nexus_link.Udp.Pairing.{IsPaired, IsPaired-get_or_create}
use nexus_link.Udp.Users.{owner-get_or_create}
use nexus_link.Udp.Registration.{SameQueue-get_or_create}
use nexus_link.Udp.Sessions.{return-user_packet}
use nexus_link.Client.Backends.{
  UdpSide, Written, to_backend, to_server, get_or_create_backend, handle_datagram, read_backend,
}
use nexus_link.Relay.Outbound.{
  deliver_all, handle_datagram-sign, length-packed, user_outputs, handle_user_packet-known,
}
use nexus_link.Relay.Backend.{packet_written, backend_kept, found_backend, registered}

length-to_hex : (k n : ℕ) → length (to_hex k n) ≡ k
unfolding to_hex
length-to_hex zero n = refl
length-to_hex (suc k) n = omega (arith, length-to_hex k n)

-- the id of the session of a user has 16 characters
length-session :
    (clock : ℕ) (user : String) (c : Channel)
    → IsPaired c
    → c.session_seq + 1 < 2 ^ 64
    → length (get_or_create_session clock user c).0.0 ≡ 16
unfolding session_id
length-session clock user c p b =
    let (index, (s, found, owner)) = owner-get_or_create clock user c p in
    let (n, le, e) = (IsPaired-get_or_create clock user c p b).given _ s found in
    ap length e ∙ length-to_hex 16 n

module _ (hmac : Hmac) (a : Auth) where
  packet_delivered :
      (t time now : ℕ) (dial : Option ℕ) (sid payload : List ℕ) (addr : String) (conn : ℕ)
      (u : UdpSide)
      → IsClock time
      → IsFresh time t
      → length sid ≡ 16
      → 0 < length payload
      → (get_or_create_backend now dial sid u).0 ≡ some conn
      → (deliver_all hmac a time now dial (user_outputs hmac a t false sid payload addr) u).1
        ≡ to_backend conn payload ∷ []
  unfolding deliver_all user_outputs
  packet_delivered t time now dial sid payload addr conn u c f l n h =
      let packet : UdpEnvelope = record { kind = 2; session_id = sid; payload = payload } in
      ap (λ (z : UdpSide × List Written). z.1 ++ [])
        (handle_datagram-sign hmac a t time now dial packet u c f (omega arith) (omega (arith, l)))
      ∙ ap (λ w. w ++ []) (packet_written now dial sid payload conn u n h)

  deliver-user_outputs :
      (t time now : ℕ) (dial : Option ℕ) (is_new : Bool) (sid payload : List ℕ) (addr : String)
      (conn : ℕ) (u : UdpSide)
      → IsClock time
      → IsFresh time t
      → length sid ≡ 16
      → 0 < length payload
      → (get_or_create_backend now dial sid u).0 ≡ some conn
      → (deliver_all hmac a time now dial (user_outputs hmac a t is_new sid payload addr) u).1
        ≡ to_backend conn payload ∷ []
  unfolding deliver_all user_outputs
  deliver-user_outputs t time now dial false sid payload addr conn u c f l n h =
      packet_delivered t time now dial sid payload addr conn u c f l n h
  deliver-user_outputs t time now dial true sid payload addr conn u c f l n h =
      let register : UdpEnvelope = record { kind = 1; session_id = sid; payload = [] } in
      let (b, kept, same) = backend_kept now dial sid conn u h in
      let u1 = (get_or_create_backend now dial sid u).1 in
      let again : (get_or_create_backend now dial sid u1).0 ≡ some conn =
        ap (λ z. z.0) (found_backend now dial sid b u1 kept) ∙ ap some same in
      let packet : UdpEnvelope = record { kind = 2; session_id = sid; payload = payload } in
      ap
        (λ (z : UdpSide × List Written).
          z.1
          ++ ((handle_datagram hmac a time now dial (sign hmac a t (marshal_envelope packet)) z.0).1
              ++ []))
        (handle_datagram-sign hmac a t time now dial register u c f (omega arith) (omega (arith, l))
          ∙ registered now dial sid u)
      ∙ packet_delivered t time now dial sid payload addr conn u1 c f l n again

  register_client-known :
      (now : ℕ) (from : String) (c : Channel) (addr : String)
      → c.client_addr ≡ some addr
      → register_client hmac a now from c ≡ (c, [])
  unfolding register_client
  register_client-known now from c addr k =
      ap {A = Option String}
        (λ o. elim o as (λ _. Channel × List Output) [
          | none ↦ (
            record c { client_addr = some from; pending_out = [] },
            flush hmac a now from c.pending_out,
          )
          | some _ ↦ (c, [])
        ])
        k

  -- the answer of a backend, as it arrives at the server
  answer_returned :
      (t time clock : ℕ) (from : String) (sid reply : List ℕ) (c : Channel) (addr : String)
      → c.client_addr ≡ some addr
      → IsClock time
      → IsFresh time t
      → length sid ≡ 16
      → let d =
          sign hmac a t
            (marshal_envelope (record { kind = 2; session_id = sid; payload = reply })) in
        (handle_data_packet hmac a time clock from d c).1
        ≡ (handle_envelope clock (record { kind = 2; session_id = sid; payload = reply }) c).1
  unfolding handle_data_packet
  answer_returned t time clock from sid reply c addr k i f l =
      let env : UdpEnvelope = record { kind = 2; session_id = sid; payload = reply } in
      let d = sign hmac a t (marshal_envelope env) in
      ap
        (λ (z : Channel × List Output). z.1 ++ (handle_verified clock (verify hmac a time d) z.0).1)
        (register_client-known time from c addr k)
      ∙ rw (verify-sign hmac a time t (marshal_envelope env) i f, handle_verified)
          (rw (unmarshal-marshal_envelope env (omega arith) (omega (arith, l)), handle_verified)
            refl)

  pub relay :
      (t t' time time' clock clock' now : ℕ) (user addr from : String) (payload reply : List ℕ)
      (dial : Option ℕ) (conn : ℕ) (c : Channel) (u : UdpSide)
      → IsPaired c
      → c.session_seq + 1 < 2 ^ 64
      → c.client_addr ≡ some addr
      → (0 < length payload) × (length payload ≤ 65448)
      → (0 < length reply) × (length reply ≤ 65448)
      → IsClock time × IsFresh time t
      → IsClock time' × IsFresh time' t'
      → let sid = (get_or_create_session clock user c).0.0 in
        (get_or_create_backend now dial sid u).0 ≡ some conn
        → let (c1, outs) = handle_user_packet hmac a t clock user payload c in
          ((deliver_all hmac a time now dial outs u).1 ≡ to_backend conn payload ∷ [])
          × ((d : List ℕ) × (read_backend hmac a t' sid reply ≡ to_server d ∷ [])
              × ((handle_data_packet hmac a time' clock' from d c1).1 ≡ to_user reply user ∷ []))
  unfolding read_backend
  relay t t' time time' clock clock' now user addr from payload reply dial conn c u p b k (n, m)
        (n', m') (i, f) (i', f') h =
      let r = get_or_create_session clock user c in
      let sid = r.0.0 in
      let l = length-session clock user c p b in
      let sent = handle_user_packet-known hmac a t clock user payload c addr k n m l in
      let known : r.1.client_addr ≡ some addr =
        (SameQueue-get_or_create clock user c).same_client ∙ k in
      let back : UdpEnvelope = record { kind = 2; session_id = sid; payload = reply } in
      let some_ : nat_eq (length reply) 0 ≡ false = ground (arith, n') in
      let fits : ltb 65507 (length (sign hmac a t' (marshal_envelope back))) ≡ false =
        ground (arith, l, m', length-packed hmac a t' back) in
      (
        ap (λ z. (deliver_all hmac a time now dial z.1 u).1) sent
            ∙ deliver-user_outputs t time now dial r.0.1 sid payload addr conn u i f l n h,
        (
          sign hmac a t' (marshal_envelope back),
          rw (some_, fits, read_backend) refl,
          ap
                (λ z.
                  (handle_data_packet hmac a time' clock' from
                    (sign hmac a t' (marshal_envelope back)) z.0).1)
                sent
              ∙ answer_returned t' time' clock' from sid reply r.1 addr known i' f' l
              ∙ ap (λ (z : Channel × List Output). (handle_envelope clock' back z.0).1) (sym sent)
              ∙ return-user_packet hmac a t clock clock' user payload reply c p n n',
        ),
      )
