-- ===== src/Tunnel/EndToEnd.antt =====
-- What one side of a tunnel reads comes out of the other side.
use nexus_link.Base.{ℕ, ◌≤◌, ◌<◌, ◌≡◌, refl, sym, ap, ◌∙◌}
use nexus_link.Base.{Bool, true, none, List, [], ◌∷◌, ◌++◌, arith}
use nexus_link.Base.{Eq-nat, Eq-string, Eq-bytes}
use nexus_link.Base.{length, All, length-append}
use nexus_link.Base.Word.{u64, add64}
use nexus_link.Wire.Stream.{Error, Conn}
use mathlib.Core.List.{append_assoc, append-nil}
use nexus_link.Auth.Sign.{Hmac, Auth, sign_framed, read_framed}
use nexus_link.Auth.Packet.{IsFresh, IsClock}
use nexus_link.Auth.Reader.{read_framed-sign_framed}
use nexus_link.Tunnel.Forward.{
  Read, Pumped, buf_size, pump_read, pump_signed, deliver, pump_verified, idle,
}

-- A read that returns data, at most a buffer full, and whose write succeeds.
abbrev pub Flows : Read → Type 0
Flows r =
    (0 < length r.chunk) × (length r.chunk ≤ buf_size) × (r.failed ≡ none) × (r.writable ≡ true)

abbrev pub chunks : List Read → List ℕ
chunks [] = []
chunks (r ∷ rs) = r.chunk ++ chunks rs

-- The receiver's rounds, one for each read, each within 300 seconds of it, with a write that succeeds.
abbrev pub Follows : List (ℕ × Bool) → List Read → Type 0
Follows [] [] = Unit
Follows ((now, w) ∷ ts) (r ∷ rs) = (IsClock now × IsFresh now r.now × (w ≡ true)) × Follows ts rs
Follows _ _ = ⊥

module _ (hmac : Hmac) (a : Auth) where
  -- the frames that the sender writes
  abbrev frames : List Read → List ℕ
  frames [] = []
  frames (r ∷ rs) = sign_framed hmac a r.now r.chunk ++ frames rs

  -- the two states after one chunk went through
  abbrev sent_one : Read → Pumped → Pumped
  sent_one r s = record s {
    written = s.written ++ sign_framed hmac a r.now r.chunk;
    counter = add64 s.counter (length r.chunk);
    traffic = s.traffic ++ (length r.chunk ∷ []);
  }

  abbrev got_one : Read → Pumped → Pumped
  got_one r s = record s {
    written = s.written ++ r.chunk;
    counter = add64 s.counter (length r.chunk);
    traffic = s.traffic ++ (length r.chunk ∷ []);
  }

  abbrev sent_all : List Read → Pumped → Pumped
  sent_all [] s = s
  sent_all (r ∷ rs) s = sent_all rs (sent_one r s)

  abbrev got_all : List Read → Pumped → Pumped
  got_all [] s = s
  got_all (r ∷ rs) s = got_all rs (got_one r s)

  pump_read-Flows :
      (r : Read) (s : Pumped) → Flows r → s.stopped ≡ none → pump_read hmac a r s ≡ sent_one r s
  unfolding pump_read
  pump_read-Flows r s f n = ground arith

  -- one round of each loop that does not stop it
  pump_signed-next :
      (r : Read) (rs : List Read) (s s1 : Pumped)
      → pump_read hmac a r s ≡ s1
      → s1.stopped ≡ none
      → pump_signed hmac a (r ∷ rs) s ≡ pump_signed hmac a rs s1
  unfolding pump_signed
  pump_signed-next r rs s s1 h n =
      let q : (pump_read hmac a r s).stopped ≡ none = ap (λ (x : Pumped). x.stopped) h ∙ n in
      rw (q, pump_signed) (ap (λ (x : Pumped). pump_signed hmac a rs x) h)

  pump_verified-next :
      (now : ℕ) (w : Bool) (ts : List (ℕ × Bool)) (c d : Conn) (s s1 : Pumped)
      → deliver w (read_framed hmac a now c) c s ≡ (s1, d)
      → s1.stopped ≡ none
      → pump_verified hmac a ((now, w) ∷ ts) c s ≡ pump_verified hmac a ts d s1
  unfolding pump_verified
  pump_verified-next now w ts c d s s1 h n =
      let q : (deliver w (read_framed hmac a now c) c s).0.stopped ≡ none =
        ap (λ (x : Pumped × Conn). x.0.stopped) h ∙ n in
      rw (q, pump_verified) (ap (λ (x : Pumped × Conn). pump_verified hmac a ts x.1 x.0) h)

  pump_signed-sent_all :
      (rs : List Read) (s : Pumped)
      → All Flows rs
      → s.stopped ≡ none
      → pump_signed hmac a rs s ≡ sent_all rs s
  unfolding pump_signed
  pump_signed-sent_all [] s f n = refl
  pump_signed-sent_all (r ∷ rs) s (f, fs) n =
      pump_signed-next r rs s (sent_one r s) (pump_read-Flows r s f n) n
      ∙ pump_signed-sent_all rs (sent_one r s) fs n

  deliver-Flows :
      (r : Read) (now : ℕ) (w : Bool) (rest : List ℕ) (e : Error) (s : Pumped)
      → Flows r
      → IsClock now × IsFresh now r.now × (w ≡ true)
      → let c : Conn = record { bytes = sign_framed hmac a r.now r.chunk ++ rest; closing = e } in
        deliver w (read_framed hmac a now c) c s
        ≡ (got_one r s, record { bytes = rest; closing = e })
  unfolding deliver
  deliver-Flows r now w rest e s f (k, h, t) =
      rw (read_framed-sign_framed hmac a now r.now r.chunk rest e k h (omega arith), t)

  pump_verified-got_all :
      (rs : List Read) (ts : List (ℕ × Bool)) (rest : List ℕ) (e : Error) (s : Pumped)
      → All Flows rs
      → Follows ts rs
      → s.stopped ≡ none
      → pump_verified hmac a ts (record { bytes = frames rs ++ rest; closing = e }) s
        ≡ (got_all rs s, record { bytes = rest; closing = e })
  unfolding pump_verified
  pump_verified-got_all [] [] rest e s f k n = refl
  pump_verified-got_all (r ∷ rs) ((now, w) ∷ ts) rest e s (f, fs) (k, ks) n =
      rw (append_assoc (sign_framed hmac a r.now r.chunk) (frames rs) rest) (
        pump_verified-next now w ts _ _ s (got_one r s)
          (deliver-Flows r now w (frames rs ++ rest) e s f k) n
        ∙ pump_verified-got_all rs ts rest e (got_one r s) fs ks n)
  pump_verified-got_all [] (t ∷ ts) rest e s f k n = absurd k
  pump_verified-got_all (r ∷ rs) [] rest e s f k n = absurd k

  written-sent_all :
      (rs : List Read) (s : Pumped) → (sent_all rs s).written ≡ s.written ++ frames rs
  written-sent_all [] s = sym (append-nil s.written)
  written-sent_all (r ∷ rs) s =
      written-sent_all rs (sent_one r s)
      ∙ append_assoc s.written (sign_framed hmac a r.now r.chunk) (frames rs)

  written-got_all : (rs : List Read) (s : Pumped) → (got_all rs s).written ≡ s.written ++ chunks rs
  written-got_all [] s = sym (append-nil s.written)
  written-got_all (r ∷ rs) s =
      written-got_all rs (got_one r s) ∙ append_assoc s.written r.chunk (chunks rs)

  -- both sides count alike
  abbrev Same : Pumped → Pumped → Type 0
  Same s s' = (s.counter ≡ s'.counter) × (s.traffic ≡ s'.traffic) × (s.stopped ≡ s'.stopped)

  Same-all : (rs : List Read) (s s' : Pumped) → Same s s' → Same (sent_all rs s) (got_all rs s')
  Same-all [] s s' h = h
  Same-all (r ∷ rs) s s' h = Same-all rs (sent_one r s) (got_one r s') (cc, cc, h.2)

  counter-got_all :
      (rs : List Read) (s : Pumped)
      → u64 (got_all rs s).counter ≡ add64 s.counter (length (chunks rs))
  counter-got_all [] s = omega arith
  counter-got_all (r ∷ rs) s =
      omega (arith, counter-got_all rs (got_one r s), length-append r.chunk (chunks rs))

  stopped-got_all : (rs : List Read) (s : Pumped) → (got_all rs s).stopped ≡ s.stopped
  stopped-got_all [] s = refl
  stopped-got_all (r ∷ rs) s = stopped-got_all rs (got_one r s)

  -- If every read returns data, every write succeeds and every frame is verified within 300 seconds
  -- of its signature, the receiver writes exactly the bytes that the sender read, in order; nothing is
  -- left on the channel, neither loop has stopped, and the counters of both sides agree.
  pub end_to_end :
      (rs : List Read) (ts : List (ℕ × Bool)) (e : Error)
      → All Flows rs
      → Follows ts rs
      → let sent = pump_signed hmac a rs idle in
        let (got, left) =
          pump_verified hmac a ts (record { bytes = sent.written; closing = e }) idle in
        (got.written ≡ chunks rs)
        × (left.bytes ≡ [])
        × (got.stopped ≡ none)
        × (u64 got.counter ≡ u64 (length (chunks rs)))
        × (sent.counter ≡ got.counter)
        × (sent.traffic ≡ got.traffic)
        × (sent.stopped ≡ none)
  end_to_end rs ts e f k =
      let p = pump_signed-sent_all rs idle f refl in
      let w : frames rs ++ [] ≡ (sent_all rs idle).written =
        append-nil (frames rs) ∙ sym (written-sent_all rs idle) in
      let q : pump_verified hmac a ts (record { bytes = (sent_all rs idle).written; closing = e })
            idle
          ≡ (got_all rs idle, record { bytes = []; closing = e }) =
        rw (← w) (pump_verified-got_all rs ts [] e idle f k refl) in
      let (c1, c2, c3) = Same-all rs idle idle (refl, refl, refl) in
      rw p (
        rw q (
          written-got_all rs idle,
          refl,
          stopped-got_all rs idle,
          omega (arith, counter-got_all rs idle),
          c1,
          c2,
          c3 ∙ stopped-got_all rs idle,
        ))
