-- ===== src/Udp/Steps.antt =====
-- What a step of a channel does to its sessions: datagrams of the client and ticks of cleanup.
use nexus_link.Base.{ℕ, ◌+◌, ◌≤◌, ◌≡◌, refl, ◌∙◌, inl, inr}
use nexus_link.Base.{Option, none, some, List, [], ◌∷◌, arith, ltb, nat_eq}
use nexus_link.Base.{Bool-cases, Option-cases, Eq-nat, Eq-string, Eq-bytes}
use nexus_link.Base.{length}
use nexus_link.Base.Dict.{lookup, keys}
use nexus_link.Protocol.Envelope.{UdpEnvelope, unmarshal_envelope}
use nexus_link.Udp.Channel.{
  Channel, delete_session, close_session, cleanup_loop, cleanup_sessions, return_data,
  handle_envelope, handle_verified,
}
use nexus_link.Udp.Pairing.{IsPaired, IsPaired-close, IsPaired-touch, IsPaired-cleanup_loop}

-- sending and registration touch neither the sessions nor their numbers
pub record SameSessions (c c' : Channel) : Type 0 where
  pub same_sessions : c'.sessions ≡ c.sessions
  pub same_index : c'.addr_index ≡ c.addr_index
  pub same_seq : c'.session_seq ≡ c.session_seq

pub IsPaired-same : (c c' : Channel) → SameSessions c c' → IsPaired c → IsPaired c'
IsPaired-same c c' e p = record {
  forward = rw (e.same_sessions, e.same_index) p.forward;
  backward = rw (e.same_sessions, e.same_index) p.backward;
  given = rw (e.same_sessions, e.same_seq) p.given;
}

pub record Step (c c' : Channel) : Type 0 where
  pub paired : IsPaired c'
  pub one_more : c'.session_seq ≤ c.session_seq + 1

pub Step-return :
    (clock : ℕ) (env : UdpEnvelope) (c : Channel) → IsPaired c → Step c (return_data clock env c).0
unfolding return_data
Step-return clock env c p = elim (Option-cases (lookup env.session_id c.sessions)) [
  | inr h ↦ rw (h, return_data) (record { paired = p; one_more = omega arith })
  | inl (s, h) ↦
      rw (h, return_data)
        (elim (Bool-cases (ltb 0 (length env.payload))) [
          | inl q ↦
              rw (q, return_data)
                (record {
                  paired = IsPaired-touch c env.session_id s clock p h;
                  one_more = omega arith;
                })
          | inr q ↦ rw (q, return_data) (record { paired = p; one_more = omega arith })
        ])
]

pub Step-close : (sid : List ℕ) (c : Channel) → IsPaired c → Step c (close_session sid c)
unfolding close_session delete_session
Step-close sid c p = record { paired = IsPaired-close c sid p; one_more = ground arith }

pub Step-envelope :
    (clock : ℕ) (env : UdpEnvelope) (c : Channel)
    → IsPaired c
    → Step c (handle_envelope clock env c).0
unfolding handle_envelope
Step-envelope clock env c p = elim (Bool-cases (nat_eq env.kind 2)) [
  | inl q ↦ rw (q, handle_envelope) (Step-return clock env c p)
  | inr q ↦
      rw (q, handle_envelope)
        (elim (Bool-cases (nat_eq env.kind 3)) [
          | inl r ↦ rw (r, handle_envelope) (Step-close env.session_id c p)
          | inr r ↦ rw (r, handle_envelope) (record { paired = p; one_more = omega arith })
        ])
]

pub Step-verified :
    (clock : ℕ) (bytes : Option (List ℕ)) (c : Channel)
    → IsPaired c
    → Step c (handle_verified clock bytes c).0
unfolding handle_verified
Step-verified clock none c p = record { paired = p; one_more = omega arith }
Step-verified clock (some bytes) c p = elim (Option-cases (unmarshal_envelope bytes)) [
  | inl (env, h) ↦ rw (h, handle_verified) (Step-envelope clock env c p)
  | inr h ↦ rw (h, handle_verified) (record { paired = p; one_more = omega arith })
]

pub session_seq-cleanup_loop :
    (now : ℕ) (order : List (List ℕ)) (c : Channel)
    → (cleanup_loop now order c).session_seq ≡ c.session_seq
unfolding cleanup_loop delete_session
session_seq-cleanup_loop now [] c = refl
session_seq-cleanup_loop now (sid ∷ rest) c = session_seq-cleanup_loop now rest _ ∙ ground arith

pub Step-cleanup : (now : ℕ) (c : Channel) → IsPaired c → Step c (cleanup_sessions now c)
unfolding cleanup_sessions
Step-cleanup now c p =
    let order = keys c.sessions in
    record {
      paired = IsPaired-cleanup_loop now order c p;
      one_more = omega (arith, session_seq-cleanup_loop now order c);
    }
