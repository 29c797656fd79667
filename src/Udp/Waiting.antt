-- ===== src/Udp/Waiting.antt =====
-- Envelopes that are sent before the client has registered.
use nexus_link.Base.{ℕ, ◌+◌, ◌≤◌, ◌<◌, String, ◌≡◌, refl, sym, ap}
use nexus_link.Base.{none, List, [], ◌∷◌, ◌++◌, arith}
use nexus_link.Base.{Eq-nat, Eq-string, Eq-bytes}
use nexus_link.Base.{zero, suc, ◌∙◌, map, length, take, All, length-append}
use mathlib.Core.List.{append_assoc, append-nil}
use nexus_link.Auth.Sign.{Hmac, Auth, sign}
use nexus_link.Protocol.Envelope.{UdpEnvelope, marshal_envelope}
use nexus_link.Udp.Channel.{
  Channel, Output, max_pending, send_begin, to_client, send_enqueue, send_to_client,
  register_client,
}
use nexus_link.Udp.Registration.{register_client_first, flush-sent_to}

module _ (hmac : Hmac) (a : Auth) where
  -- sendUDPToClient, for some envelopes one after the other
  unfoldable pub send_all : ℕ → List UdpEnvelope → Channel → Channel × List Output
  send_all now [] c = (c, [])
  send_all now (env ∷ envs) c =
      let (c1, out) = send_to_client hmac a now env c in
      let (c2, out') = send_all now envs c1 in (c2, out ++ out')

  abbrev pub Fits : ℕ → UdpEnvelope → Type 0
  Fits now env = length (sign hmac a now (marshal_envelope env)) ≤ 65507

  send_waiting :
      (now : ℕ) (env : UdpEnvelope) (c : Channel)
      → c.client_addr ≡ none
      → Fits now env
      → length c.pending_out < max_pending
      → send_to_client hmac a now env c
        ≡ (record c { pending_out = c.pending_out ++ (env ∷ []) }, [])
  unfolding send_to_client send_begin send_enqueue
  send_waiting now env c h f b = ground arith

  -- one that finds the queue full is dropped
  send_full :
      (now : ℕ) (env : UdpEnvelope) (c : Channel)
      → c.client_addr ≡ none
      → Fits now env
      → max_pending ≤ length c.pending_out
      → send_to_client hmac a now env c ≡ (c, [])
  unfolding send_to_client send_begin send_enqueue
  send_full now env c h f b = ground arith

  send_all_full :
      (now : ℕ) (envs : List UdpEnvelope) (c : Channel)
      → c.client_addr ≡ none
      → All (Fits now) envs
      → max_pending ≤ length c.pending_out
      → send_all now envs c ≡ (c, [])
  unfolding send_all
  send_all_full now [] c h f b = refl
  send_all_full now (env ∷ envs) c h f b =
      rw (send_full now env c h f.0 b) (rw (send_all_full now envs c h f.1 b) refl)

  -- with room for `room` envelopes, so many are queued
  send_all_waiting :
      (now room : ℕ) (envs : List UdpEnvelope) (c : Channel)
      → c.client_addr ≡ none
      → All (Fits now) envs
      → length c.pending_out + room ≡ max_pending
      → send_all now envs c ≡ (record c { pending_out = c.pending_out ++ take room envs }, [])
  unfolding send_all
  send_all_waiting now zero envs c h f b =
      send_all_full now envs c h f (omega (arith, b))
      ∙ ap (λ p. (record c { pending_out = p }, [])) (sym (append-nil c.pending_out))
  send_all_waiting now (suc room) [] c h f b =
      ap (λ p. (record c { pending_out = p }, [])) (sym (append-nil c.pending_out))
  send_all_waiting now (suc room) (env ∷ envs) c h f b =
      let q = c.pending_out ++ (env ∷ []) in
      rw (send_waiting now env c h f.0 (omega (arith, b))) (
        rw
          (send_all_waiting now room envs (record c { pending_out = q }) h f.1
            (omega (arith, b, length-append c.pending_out (env ∷ []))))
          (ap (λ p. (record c { pending_out = p }, []))
            (append_assoc c.pending_out (env ∷ []) (take room envs))))

  -- Of the envelopes that come before the client, none of them too large for a datagram, the first 1024
  -- are held back and the others dropped. When its first datagram registers the client, those held back
  -- go to it in their order, each signed anew.
  pub register-send_all :
      (now later : ℕ) (from : String) (envs : List UdpEnvelope) (c : Channel)
      → c.client_addr ≡ none
      → c.pending_out ≡ []
      → All (Fits now) envs
      → let (waiting, out) = send_all now envs c in
        (out ≡ [])
        × ((register_client hmac a later from waiting).1
            ≡ map
                (λ env. to_client (sign hmac a later (marshal_envelope env)) from)
                (take 1024 envs))
  register-send_all now later from envs c h e f =
      rw (send_all_waiting now 1024 envs c h f (omega (arith, ap length e))) (
        refl,
        rw
            (
              register_client_first hmac a later from
                  (record c { pending_out = c.pending_out ++ take 1024 envs }) h,
              e,
            )
            (flush-sent_to hmac a later from (take 1024 envs)),
      )
