-- ===== src/Udp/Registration.antt =====
-- The address of the client and the datagrams that wait for it.
use nexus_link.Base.{ℕ, String, ◌≡◌, refl, ◌∙◌, inl, inr}
use nexus_link.Base.{Bool, true, false, Option, none, some, List, [], ◌∷◌, arith, nat_eq}
use nexus_link.Base.{Bool-cases, Option-cases, Eq-nat, Eq-string, Eq-bytes}
use nexus_link.Base.{length, map, ap}
use nexus_link.Base.Dict.{keys}
use mathlib.Core.List.{append-nil}
use nexus_link.Auth.Sign.{Hmac, Auth, sign, verify}
use nexus_link.Protocol.Envelope.{UdpEnvelope, marshal_envelope, unmarshal_envelope}
use nexus_link.Udp.Channel.{
  Channel, Output, to_client, get_or_create_session, delete_session, close_session, cleanup_loop,
  cleanup_sessions, send_begin, send_enqueue, send_to_client, announce, handle_user_packet, flush,
  register_client, return_data, handle_envelope, handle_verified, handle_data_packet, Event,
  from_user, from_data, tick, run_event, run_events,
}

-- everything but the sessions is as it was
pub record SameQueue (c c' : Channel) : Type 0 where
  pub same_client : c'.client_addr ≡ c.client_addr
  pub same_pending : c'.pending_out ≡ c.pending_out

pub SameQueue-get_or_create :
    (now : ℕ) (user : String) (c : Channel) → SameQueue c (get_or_create_session now user c).1
unfolding get_or_create_session
SameQueue-get_or_create now user c = record {
  same_client = ground arith;
  same_pending = ground arith;
}

SameQueue-cleanup_loop :
    (now : ℕ) (order : List (List ℕ)) (c : Channel) → SameQueue c (cleanup_loop now order c)
unfolding cleanup_loop delete_session
SameQueue-cleanup_loop now [] c = record { same_client = refl; same_pending = refl }
SameQueue-cleanup_loop now (sid ∷ rest) c =
    let after = SameQueue-cleanup_loop now rest _ in
    record {
      same_client = after.same_client ∙ ground arith;
      same_pending = after.same_pending ∙ ground arith;
    }

SameQueue-envelope :
    (clock : ℕ) (env : UdpEnvelope) (c : Channel) → SameQueue c (handle_envelope clock env c).0
unfolding handle_envelope return_data close_session delete_session
SameQueue-envelope clock env c = record { same_client = ground arith; same_pending = ground arith }

SameQueue-verified :
    (clock : ℕ) (bytes : Option (List ℕ)) (c : Channel)
    → SameQueue c (handle_verified clock bytes c).0
unfolding handle_verified
SameQueue-verified clock none c = record { same_client = refl; same_pending = refl }
SameQueue-verified clock (some bytes) c = elim (Option-cases (unmarshal_envelope bytes)) [
  | inl (env, h) ↦ rw (h, handle_verified) (SameQueue-envelope clock env c)
  | inr h ↦ rw (h, handle_verified) (record { same_client = refl; same_pending = refl })
]

module _ (hmac : Hmac) (a : Auth) where
  SameQueue-send :
      (now : ℕ) (env : UdpEnvelope) (c : Channel) (addr : String)
      → c.client_addr ≡ some addr
      → SameQueue c (send_to_client hmac a now env c).0
  unfolding send_to_client send_begin
  SameQueue-send now env c addr h = record {
    same_client = ground arith;
    same_pending = ground arith;
  }

  SameQueue-announce :
      (now : ℕ) (is_new : Bool) (env : UdpEnvelope) (c : Channel) (addr : String)
      → c.client_addr ≡ some addr
      → SameQueue c (announce hmac a now is_new env c).0
  unfolding announce
  SameQueue-announce now true env c addr h = SameQueue-send now env c addr h
  SameQueue-announce now false env c addr h = record { same_client = refl; same_pending = refl }

  SameQueue-user_packet :
      (now clock : ℕ) (user : String) (payload : List ℕ) (c : Channel) (addr : String)
      → c.client_addr ≡ some addr
      → SameQueue c (handle_user_packet hmac a now clock user payload c).0
  unfolding handle_user_packet
  SameQueue-user_packet now clock user payload c addr h =
      elim (Bool-cases (nat_eq (length payload) 0)) [
        | inl q ↦ rw q (record { same_client = refl; same_pending = refl })
        | inr q ↦
            let ((sid, is_new), c1) = get_or_create_session clock user c in
            let s1 = SameQueue-get_or_create clock user c in
            let register : UdpEnvelope = record { kind = 1; session_id = sid; payload = [] } in
            let packet : UdpEnvelope = record { kind = 2; session_id = sid; payload = payload } in
            let h1 = s1.same_client ∙ h in
            let s2 = SameQueue-announce now is_new register c1 addr h1 in
            let s3 = SameQueue-send now packet _ addr (s2.same_client ∙ h1) in
            rw q (record {
              same_client = s3.same_client ∙ s2.same_client ∙ s1.same_client;
              same_pending = s3.same_pending ∙ s2.same_pending ∙ s1.same_pending;
            })
      ]

  register_client_again :
      (now : ℕ) (from : String) (c : Channel) (addr : String)
      → c.client_addr ≡ some addr
      → let c' = (register_client hmac a now from c).0 in
        (c'.client_addr ≡ c.client_addr) × (c'.pending_out ≡ c.pending_out)
  unfolding register_client
  register_client_again now from c addr h = (ground arith, ground arith)

  SameQueue-data_packet :
      (now clock : ℕ) (from : String) (bytes : List ℕ) (c : Channel) (addr : String)
      → c.client_addr ≡ some addr
      → SameQueue c (handle_data_packet hmac a now clock from bytes c).0
  unfolding handle_data_packet register_client
  SameQueue-data_packet now clock from bytes c addr h =
      let same =
        SameQueue-verified clock (verify hmac a now bytes) (register_client hmac a now from c).0 in
      let kept = register_client_again now from c addr h in
      record { same_client = same.same_client ∙ kept.0; same_pending = same.same_pending ∙ kept.1 }

  SameQueue-event :
      (e : Event hmac a) (c : Channel) (addr : String)
      → c.client_addr ≡ some addr
      → SameQueue c (run_event hmac a e c)
  unfolding run_event cleanup_sessions
  SameQueue-event (from_user now clock user payload) c addr h =
      SameQueue-user_packet now clock user payload c addr h
  SameQueue-event (from_data now clock from bytes) c addr h =
      SameQueue-data_packet now clock from bytes c addr h
  SameQueue-event (tick now) c addr h = SameQueue-cleanup_loop now (keys c.sessions) c

  -- Once a client is registered, no datagram and no tick changes its address, and what is queued then
  -- stays queued: it is neither sent nor dropped nor added to.
  pub run_events_registered :
      (es : List (Event hmac a)) (c : Channel) (addr : String)
      → c.client_addr ≡ some addr
      → let c' = run_events hmac a es c in
        (c'.client_addr ≡ some addr) × (c'.pending_out ≡ c.pending_out)
  unfolding run_events
  run_events_registered [] c addr h = (h, refl)
  run_events_registered (e ∷ es) c addr h =
      let s = SameQueue-event e c addr h in
      let (client, pending) = run_events_registered es _ addr (s.same_client ∙ h) in
      (client, pending ∙ s.same_pending)

  pub register_client_first :
      (now : ℕ) (from : String) (c : Channel)
      → c.client_addr ≡ none
      → register_client hmac a now from c ≡ (
        record c { client_addr = some from; pending_out = [] },
        flush hmac a now from c.pending_out,
      )
  unfolding register_client
  register_client_first now from c h = rw h refl

  -- what an address is sent of envelopes: each signed at the time, in order
  abbrev pub sent_to : ℕ → String → List UdpEnvelope → List Output
  sent_to now addr envs = map (λ env. to_client (sign hmac a now (marshal_envelope env)) addr) envs

  pub flush-sent_to :
      (now : ℕ) (addr : String) (envs : List UdpEnvelope)
      → flush hmac a now addr envs ≡ sent_to now addr envs
  unfolding flush
  flush-sent_to now addr [] = refl
  flush-sent_to now addr (env ∷ envs) =
      ap (λ outs. to_client (sign hmac a now (marshal_envelope env)) addr ∷ outs)
        (flush-sent_to now addr envs)

  -- The first datagram on the data socket, when it is not verified, still makes its sender the
  -- client for good, and the client is sent exactly what is queued, each envelope signed anew and
  -- in the order of the queue.
  pub handle_data_packet_first :
      (now clock : ℕ) (from : String) (bytes : List ℕ) (c : Channel) (es : List (Event hmac a))
      → c.client_addr ≡ none
      → verify hmac a now bytes ≡ none
      → let (c', out) = handle_data_packet hmac a now clock from bytes c in
        (out ≡ map (λ env. to_client (sign hmac a now (marshal_envelope env)) from) c.pending_out)
        × ((run_events hmac a es c').client_addr ≡ some from)
  unfolding handle_data_packet handle_verified
  handle_data_packet_first now clock from bytes c es h v =
      rw (v, register_client_first now from c h, handle_verified)
        (
          append-nil _ ∙ flush-sent_to now from c.pending_out,
          (run_events_registered es _ from refl).0,
        )

  send_begin-none :
      (now : ℕ) (env : UdpEnvelope) (c : Channel)
      → (send_begin hmac a now env c).0 ≡ true
      → c.client_addr ≡ none
  unfolding send_begin
  send_begin-none now env c q = ground arith

  -- A sender that found no client, and queues its envelope only after the client has registered, leaves
  -- it in the queue for good.
  pub enqueue_after_register :
      (now : ℕ) (from : String) (env : UdpEnvelope) (c : Channel) (es : List (Event hmac a))
      → (send_begin hmac a now env c).0 ≡ true
      → let registered = (register_client hmac a now from c).0 in
        (run_events hmac a es (send_enqueue hmac a env registered)).pending_out ≡ env ∷ []
  unfolding send_enqueue
  enqueue_after_register now from env c es q =
      let none_yet = send_begin-none now env c q in
      rw (register_client_first now from c none_yet)
        ((run_events_registered es _ from (ground arith)).1 ∙ ground arith)
