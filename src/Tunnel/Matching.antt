-- ===== src/Tunnel/Matching.antt =====
-- Which connections meet: an invariant of the rendezvous of a tunnel.
use nexus_link.Base.{ℕ, ◌<◌, String, ◌≡◌, sym, ap, ◌∙◌, ◌≢◌, inl, inr}
use nexus_link.Base.{true, false, none, some, arith}
use nexus_link.Base.{◌==◌, Eq-nat, Eq-string, Eq-bytes, Eq-pair}
use nexus_link.Base.{All}
use nexus_link.Base.Dict.{
  lookup, lookup-remove, apart, lookup-insert_other, lookup-remove_other, insert_cases,
  remove_cases,
}
use nexus_link.Tunnel.Rendezvous.{
  Waiter, DataConn, Rendezvous, close_socket, new_rendezvous, hand_over, take_data, time_out,
}

-- a channel in the map belongs to a handler that waits under that id, and is empty; one in the hand
-- is not in the map, and is empty; and what a channel gets has the id of the handler that waits for
-- it
pub record IsMatched (s : Rendezvous) : Type 0 where
  pub waits :
      (id : String) (ch : ℕ)
      → lookup id s.pending ≡ some ch
      → (w : Waiter) × (lookup ch s.waiters ≡ some w)
        × (w.conn_id ≡ id)
        × (lookup ch s.buffers ≡ none)
  pub held :
      (ch : ℕ) (d : DataConn)
      → s.in_hand ≡ some (ch, d)
      → (ch < s.next_channel)
        × (lookup ch s.buffers ≡ none)
        × ((id : String) → lookup id s.pending ≢ some ch)
        × ((w : Waiter) → lookup ch s.waiters ≡ some w → w.conn_id ≡ d.conn_id)
  pub buffered :
      (ch : ℕ) (d : DataConn)
      → lookup ch s.buffers ≡ some d
      → (ch < s.next_channel)
        × ((w : Waiter) → lookup ch s.waiters ≡ some w → w.conn_id ≡ d.conn_id)
  pub made : (ch : ℕ) (w : Waiter) → lookup ch s.waiters ≡ some w → ch < s.next_channel
  pub paired : All (λ (p : Waiter × DataConn). p.0.conn_id ≡ p.1.conn_id) s.joined

-- closing a socket changes none of it
pub IsMatched-close_socket : (k : ℕ) (s : Rendezvous) → IsMatched s → IsMatched (close_socket k s)
IsMatched-close_socket k s m = record {
  waits = m.waits;
  held = m.held;
  buffered = m.buffered;
  made = m.made;
  paired = m.paired;
}

pub IsMatched-new : IsMatched new_rendezvous
unfolding lookup
IsMatched-new = record {
  waits = λ id ch h. cc;
  held = λ ch d h. cc;
  buffered = λ ch d h. cc;
  made = λ ch w h. cc;
  paired = tt;
}

pub IsMatched-hand_over :
    (ch : ℕ) (d : DataConn) (s : Rendezvous)
    → s.in_hand ≡ some (ch, d)
    → IsMatched s
    → IsMatched (hand_over ch d s)
unfolding hand_over
IsMatched-hand_over ch d s h m =
    let (lt, e, away, same) = m.held ch d h in
    record {
      waits = λ id c l.
          let (w, f, i, b) = m.waits id c l in
          let other : (ch == c) ≡ false = apart ch c (λ q. away id (l ∙ ap some (sym q))) in
          (w, f, i, lookup-insert_other ch c d s.buffers other ∙ b);
      held = λ c d' l. cc;
      buffered = λ c d' l. elim (insert_cases ch c d d' s.buffers l) [
        | inl (q, r) ↦ (
          ground (arith, lt, q),
          λ w f. same w (ap (λ z. lookup z s.waiters) q ∙ f) ∙ ap (λ z. z.conn_id) r,
        )
        | inr (q, r) ↦ m.buffered c d' r
      ];
      made = m.made;
      paired = m.paired;
    }

pub IsMatched-take_data :
    (ch : ℕ) (w : Waiter) (d : DataConn) (s : Rendezvous)
    → lookup ch s.waiters ≡ some w
    → lookup ch s.buffers ≡ some d
    → IsMatched s
    → IsMatched (take_data ch w d s)
unfolding take_data
IsMatched-take_data ch w d s f g m = record {
  waits = λ id c l.
      let (w', f', i, b) = m.waits id c l in
      let other : (ch == c) ≡ false = apart ch c (λ q.
        let clash : some d ≡ none = sym g ∙ ap (λ z. lookup z s.buffers) q ∙ b in
        absurd (ground (arith, clash))) in
      (
        w',
        lookup-remove_other ch c s.waiters other ∙ f',
        i,
        lookup-remove_other ch c s.buffers other ∙ b,
      );
  held = λ c d' l.
      let (lt, e, away, same) = m.held c d' l in
      (
        lt,
        ground (arith, lookup-remove ch c s.buffers, e),
        away,
        λ w' f'. same w' (remove_cases ch c w' s.waiters f').1,
      );
  buffered = λ c d' l.
      let (lt, same) = m.buffered c d' (remove_cases ch c d' s.buffers l).1 in
      (lt, λ w' f'. same w' (remove_cases ch c w' s.waiters f').1);
  made = λ c w' f'. m.made c w' (remove_cases ch c w' s.waiters f').1;
  paired = ((m.buffered ch d g).1 w f, m.paired);
}

pub IsMatched-time_out :
    (ch : ℕ) (w : Waiter) (s : Rendezvous)
    → lookup ch s.waiters ≡ some w
    → IsMatched s
    → IsMatched (time_out ch w s)
unfolding time_out
IsMatched-time_out ch w s f m = record {
  waits = λ id c l.
      let (n, l') = remove_cases w.conn_id id c s.pending l in
      let (w', f', i, b) = m.waits id c l' in
      let other : (ch == c) ≡ false = apart ch c (λ q.
        let same : some w ≡ some w' = sym f ∙ ap (λ z. lookup z s.waiters) q ∙ f' in
        let equal : w ≡ w' = ground (arith, same) in
        let clash : true ≡ false =
          sym ((Eq-string.same_iff w.conn_id id).1 (ap (λ z. z.conn_id) equal ∙ i)) ∙ n in
        absurd (ground (arith, clash))) in
      (w', lookup-remove_other ch c s.waiters other ∙ f', i, b);
  held = λ c d' l.
      let (lt, e, away, same) = m.held c d' l in
      (
        lt,
        e,
        λ id l'. away id (remove_cases w.conn_id id c s.pending l').1,
        λ w' f'. same w' (remove_cases ch c w' s.waiters f').1,
      );
  buffered = λ c d' l.
      let (lt, same) = m.buffered c d' l in
      (lt, λ w' f'. same w' (remove_cases ch c w' s.waiters f').1);
  made = λ c w' f'. m.made c w' (remove_cases ch c w' s.waiters f').1;
  paired = m.paired;
}
