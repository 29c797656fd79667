-- ===== src/Udp/Sessions.antt =====
-- Sessions under the events of a channel, and the way of a reply to its user.
use nexus_link.Base.{ℕ, ◌+◌, ◌^◌, ◌<◌, String, ◌≡◌, refl, ap, ◌∙◌, inl, inr}
use nexus_link.Base.{Bool, true, false, some, List, [], ◌∷◌, arith, nat_eq, lt→ltb}
use nexus_link.Base.{Bool-cases, Eq-nat, Eq-string, Eq-bytes}
use nexus_link.Base.{length}
use nexus_link.Base.Dict.{lookup}
use nexus_link.Auth.Sign.{Hmac, Auth, verify}
use nexus_link.Protocol.Envelope.{UdpEnvelope}
use nexus_link.Udp.Channel.{
  Session, Channel, to_user, get_or_create_session, send_enqueue, send_to_client, announce,
  handle_user_packet, register_client, return_data, handle_envelope, handle_data_packet, Event,
  from_user, from_data, tick, run_event, run_events,
}
use nexus_link.Udp.Pairing.{IsPaired, IsPaired-get_or_create}
use nexus_link.Udp.Users.{session_seq-get_or_create, owner-get_or_create}
use nexus_link.Udp.Steps.{SameSessions, IsPaired-same, Step, Step-verified, Step-cleanup}

return-found :
    (clock : ℕ) (sid : List ℕ) (s : Session) (reply : List ℕ) (c : Channel)
    → lookup sid c.sessions ≡ some s
    → 0 < length reply
    → (handle_envelope clock (record { kind = 2; session_id = sid; payload = reply }) c).1
      ≡ to_user reply s.user_addr ∷ []
unfolding handle_envelope return_data
return-found clock sid s reply c h hr = rw (h, return_data) (rw (lt→ltb 0 (length reply) hr) refl)

module _ (hmac : Hmac) (a : Auth) where
  SameSessions-send :
      (now : ℕ) (env : UdpEnvelope) (c : Channel)
      → SameSessions c (send_to_client hmac a now env c).0
  unfolding send_to_client send_enqueue
  SameSessions-send now env c = record {
    same_sessions = ground arith;
    same_index = ground arith;
    same_seq = ground arith;
  }

  SameSessions-announce :
      (now : ℕ) (is_new : Bool) (env : UdpEnvelope) (c : Channel)
      → SameSessions c (announce hmac a now is_new env c).0
  unfolding announce
  SameSessions-announce now true env c = SameSessions-send now env c
  SameSessions-announce now false env c = record {
    same_sessions = refl;
    same_index = refl;
    same_seq = refl;
  }

  SameSessions-register :
      (now : ℕ) (from : String) (c : Channel) → SameSessions c (register_client hmac a now from c).0
  unfolding register_client
  SameSessions-register now from c = record {
    same_sessions = ground arith;
    same_index = ground arith;
    same_seq = ground arith;
  }

  -- what a datagram of a user leaves is what its session leaves, but for what is queued
  SameSessions-user_packet :
      (now clock : ℕ) (user : String) (payload : List ℕ) (c : Channel)
      → nat_eq (length payload) 0 ≡ false
      → SameSessions
          (get_or_create_session clock user c).1
          (handle_user_packet hmac a now clock user payload c).0
  unfolding handle_user_packet
  SameSessions-user_packet now clock user payload c h =
      let ((sid, is_new), c1) = get_or_create_session clock user c in
      let first =
        SameSessions-announce now is_new (record { kind = 1; session_id = sid; payload = [] }) c1 in
      let second =
        SameSessions-send now (record { kind = 2; session_id = sid; payload = payload }) _ in
      rw h (record {
        same_sessions = second.same_sessions ∙ first.same_sessions;
        same_index = second.same_index ∙ first.same_index;
        same_seq = second.same_seq ∙ first.same_seq;
      })

  Step-user_packet :
      (now clock : ℕ) (user : String) (payload : List ℕ) (c : Channel)
      → IsPaired c
      → c.session_seq + 1 < 2 ^ 64
      → Step c (handle_user_packet hmac a now clock user payload c).0
  unfolding handle_user_packet
  Step-user_packet now clock user payload c p b = elim (Bool-cases (nat_eq (length payload) 0)) [
    | inl h ↦ rw h (record { paired = p; one_more = omega arith })
    | inr h ↦
        let same = SameSessions-user_packet now clock user payload c h in
        record {
          paired = IsPaired-same _ _ same (IsPaired-get_or_create clock user c p b);
          one_more = omega (arith, same.same_seq, session_seq-get_or_create clock user c b);
        }
  ]

  Step-event :
      (e : Event hmac a) (c : Channel)
      → IsPaired c
      → c.session_seq + 1 < 2 ^ 64
      → Step c (run_event hmac a e c)
  unfolding run_event handle_data_packet
  Step-event (from_user now clock user payload) c p b =
      Step-user_packet now clock user payload c p b
  Step-event (from_data now clock from bytes) c p b =
      let same = SameSessions-register now from c in
      let step = Step-verified clock (verify hmac a now bytes) _ (IsPaired-same _ _ same p) in
      record { paired = step.paired; one_more = omega (arith, same.same_seq, step.one_more) }
  Step-event (tick now) c p b = Step-cleanup now c p

  -- Whatever datagrams and ticks a channel takes, while numbers for sessions last, its sessions and
  -- the index of its users stay inverse to each other, and every id in use is that of a number
  -- given out.
  pub run_events-IsPaired :
      (es : List (Event hmac a)) (c : Channel)
      → IsPaired c
      → c.session_seq + length es < 2 ^ 64
      → IsPaired (run_events hmac a es c)
  unfolding run_events
  run_events-IsPaired [] c p b = p
  run_events-IsPaired (e ∷ es) c p b =
      let step = Step-event e c p (omega arith) in
      run_events-IsPaired es _ step.paired (omega (arith, step.one_more))

  -- In a channel whose sessions and index are inverse to each other, a packet that the client
  -- returns for the session of a datagram just taken from a user, neither of them empty, goes to
  -- that user and to nobody else.
  pub return-user_packet :
      (now clock clock' : ℕ) (user : String) (payload reply : List ℕ) (c : Channel)
      → IsPaired c
      → 0 < length payload
      → 0 < length reply
      → let sid = (get_or_create_session clock user c).0.0 in
        (handle_envelope clock'
          (record { kind = 2; session_id = sid; payload = reply })
          (handle_user_packet hmac a now clock user payload c).0).1
        ≡ to_user reply user ∷ []
  return-user_packet now clock clock' user payload reply c p hp hr =
      let same = SameSessions-user_packet now clock user payload c (ground arith) in
      let (index, (s, found, owner)) = owner-get_or_create clock user c p in
      let sid = (get_or_create_session clock user c).0.0 in
      return-found clock' sid s reply _ (ap (λ m. lookup sid m) same.same_sessions ∙ found) hr
      ∙ ap (λ u. to_user reply u ∷ []) owner
