-- ===== src/Tunnel/Reached.antt =====
-- The other steps of the rendezvous, and what holds in every state that is reached.
use nexus_link.Base.{ℕ, ◌+◌, ◌<◌, String, ◌≡◌, refl, sym, ap, ◌∙◌, ◌⊎◌, inl, inr}
use nexus_link.Base.{
  Bool, true, false, not, Option, none, some, List, ◌∷◌, ◌++◌, arith, if◌then◌else◌,
}
use nexus_link.Base.{Bool-cases, Option-cases, ◌==◌, Eq-nat, Eq-string, Eq-bytes, Eq-pair}
use nexus_link.Base.{All, All-append, All-front, All-back}
use nexus_link.Base.Dict.{
  lookup, insert, remove, lookup-insert_self, apart, lookup-insert_other, insert_cases,
  remove_cases,
}
use nexus_link.Tunnel.Rendezvous.{
  Waiter, DataConn, Rendezvous, close_socket, wait_user, claim, hand_over, finish, Step, arrives,
  connects, sends, receives, expires, ends, Reach, fresh, further,
}
use mathlib.Core.Path.{subst}
use nexus_link.Tunnel.Matching.{
  IsMatched, IsMatched-close_socket, IsMatched-new, IsMatched-hand_over, IsMatched-take_data,
  IsMatched-time_out,
}

-- a channel that is not made yet is empty
unmade_empty : (s : Rendezvous) → IsMatched s → lookup s.next_channel s.buffers ≡ none
unmade_empty s m = elim (Option-cases (lookup s.next_channel s.buffers)) [
  | inl (d, f) ↦ absurd (omega (arith, (m.buffered s.next_channel d f).0))
  | inr n ↦ n
]

-- what a waiter of the new map is, at a channel that was made before
old_waiter :
    (s : Rendezvous) (ch : ℕ) (new w : Waiter)
    → ch < s.next_channel
    → lookup ch (insert s.next_channel new s.waiters) ≡ some w
    → lookup ch s.waiters ≡ some w
old_waiter s ch new w lt h = elim (insert_cases s.next_channel ch new w s.waiters h) [
  | inl (q, r) ↦ absurd (omega (arith, q))
  | inr (q, r) ↦ r
]

IsMatched-registered :
    (id : String) (w : Waiter) (s : Rendezvous)
    → w.conn_id ≡ id
    → IsMatched s
    → IsMatched (record s {
      pending = insert id s.next_channel s.pending;
      next_channel = s.next_channel + 1;
      waiters = insert s.next_channel w s.waiters;
    })
IsMatched-registered id w s i m = record {
  waits = λ id' c l. elim (insert_cases id id' s.next_channel c s.pending l) [
    | inl (q, r) ↦ (
      w,
      ap (λ z. lookup z (insert s.next_channel w s.waiters)) (sym r)
          ∙ lookup-insert_self s.next_channel w s.waiters,
      i ∙ q,
      ap (λ z. lookup z s.buffers) (sym r) ∙ unmade_empty s m,
    )
    | inr (q, r) ↦
        let (w', f, i', b) = m.waits id' c r in
        let lt = m.made c w' f in
        let other : (s.next_channel == c) ≡ false =
          apart s.next_channel c (λ e. absurd (omega (arith, lt, e))) in
        (w', lookup-insert_other s.next_channel c w s.waiters other ∙ f, i', b)
  ];
  held = λ c d l.
      let (lt, e, away, same) = m.held c d l in
      (
        omega (arith, lt),
        e,
        λ id' l'. elim (insert_cases id id' s.next_channel c s.pending l') [
          | inl (q, r) ↦ absurd (omega (arith, lt, r))
          | inr (q, r) ↦ away id' r
        ],
        λ w' f'. same w' (old_waiter s c w w' lt f'),
      );
  buffered = λ c d l.
      let (lt, same) = m.buffered c d l in
      (omega (arith, lt), λ w' f'. same w' (old_waiter s c w w' lt f'));
  made = λ c w' f'. elim (insert_cases s.next_channel c w w' s.waiters f') [
    | inl (q, r) ↦ omega (arith, q)
    | inr (q, r) ↦ omega (arith, m.made c w' r)
  ];
  paired = m.paired;
}

IsMatched-wait_user :
    (notified : Bool) (id : String) (user : ℕ) (s : Rendezvous)
    → IsMatched s
    → IsMatched (wait_user notified id user s)
unfolding wait_user
IsMatched-wait_user false id user s m = IsMatched-close_socket user s m
IsMatched-wait_user true id user s m =
    let w : Waiter = record { user = user; conn_id = id } in
    let after : Rendezvous = record s {
      pending = insert id s.next_channel s.pending;
      next_channel = s.next_channel + 1;
      waiters = insert s.next_channel w s.waiters;
    } in
    let told : (b : Bool)
        → s.ready ≡ b
        → wait_user true id user s ≡ (if not b then close_socket user s else after) =
      λ b q. ap (λ z. if not z then close_socket user s else after) q in
    elim (Bool-cases s.ready) [
      | inl q ↦ subst IsMatched (sym (told true q)) (IsMatched-registered id w s refl m)
      | inr q ↦ subst IsMatched (sym (told false q)) (IsMatched-close_socket user s m)
    ]

IsMatched-claimed :
    (id : String) (ch conn : ℕ) (s : Rendezvous)
    → lookup id s.pending ≡ some ch
    → IsMatched s
    → IsMatched (record s {
      pending = remove id s.pending;
      in_hand = some (ch, record { conn = conn; conn_id = id });
    })
IsMatched-claimed id ch conn s h m =
    let (w, f, i, b) = m.waits id ch h in
    record {
      waits = λ id' c l. m.waits id' c (remove_cases id id' c s.pending l).1;
      held = λ c d l.
          let c_same : ch ≡ c = ground (arith, l) in
          let id_same : id ≡ d.conn_id = ground (arith, l) in
          (
            ground (arith, m.made ch w f, c_same),
            ap (λ z. lookup z s.buffers) (sym c_same) ∙ b,
            λ id' l'.
                let (n, l'') = remove_cases id id' c s.pending l' in
                let (w', f', i', b') = m.waits id' c l'' in
                let same : some w ≡ some w' = sym f ∙ ap (λ z. lookup z s.waiters) c_same ∙ f' in
                let equal : w ≡ w' = ground (arith, same) in
                let clash : true ≡ false =
                  sym ((Eq-string.same_iff id id').1 (sym i ∙ ap (λ z. z.conn_id) equal ∙ i'))
                  ∙ n in
                absurd (ground (arith, clash)),
            λ w' f'.
                let same : some w ≡ some w' = sym f ∙ ap (λ z. lookup z s.waiters) c_same ∙ f' in
                let equal : w ≡ w' = ground (arith, same) in
                ap (λ z. z.conn_id) (sym equal) ∙ i ∙ id_same,
          );
      buffered = m.buffered;
      made = m.made;
      paired = m.paired;
    }

IsMatched-claim :
    (first : Option String) (conn : ℕ) (s : Rendezvous)
    → IsMatched s
    → IsMatched (claim first conn s)
unfolding claim
IsMatched-claim none conn s m = IsMatched-close_socket conn s m
IsMatched-claim (some id) conn s m = elim (Option-cases (lookup id s.pending)) [
  | inl (ch, f) ↦ rw (f, claim) (IsMatched-claimed id ch conn s f m)
  | inr n ↦ rw (n, claim) (IsMatched-close_socket conn s m)
]

abbrev pub HasOwnId : Waiter × DataConn → Type 0
HasOwnId p = p.0.conn_id ≡ p.1.conn_id

IsMatched-finish :
    (before : List (Waiter × DataConn)) (w : Waiter) (d : DataConn)
    (after : List (Waiter × DataConn)) (s : Rendezvous)
    → s.joined ≡ before ++ ((w, d) ∷ after)
    → IsMatched s
    → IsMatched (finish before w d after s)
unfolding finish
IsMatched-finish before w d after s e m =
    let all : All HasOwnId (before ++ ((w, d) ∷ after)) = subst (All HasOwnId) e m.paired in
    record {
      waits = m.waits;
      held = m.held;
      buffered = m.buffered;
      made = m.made;
      paired =
          All-append HasOwnId before after (All-front HasOwnId before ((w, d) ∷ after) all)
            (All-back HasOwnId before ((w, d) ∷ after) all).1;
    }

IsMatched-Step : {s t : Rendezvous} → Step s t → IsMatched s → IsMatched t
IsMatched-Step (arrives s notified id user) m = IsMatched-wait_user notified id user s m
IsMatched-Step (connects s first conn h) m = IsMatched-claim first conn s m
IsMatched-Step (sends s ch d h e) m = IsMatched-hand_over ch d s h m
IsMatched-Step (receives s ch w d f g) m = IsMatched-take_data ch w d s f g m
IsMatched-Step (expires s ch w f) m = IsMatched-time_out ch w s f m
IsMatched-Step (ends s before w d after e) m = IsMatched-finish before w d after s e m

IsMatched-reach : {s : Rendezvous} → Reach s → IsMatched s
IsMatched-reach fresh = IsMatched-new
IsMatched-reach (further r st) = IsMatched-Step st (IsMatched-reach r)

-- However users, data connections and timeouts follow each other, every user that is joined with a data
-- connection was announced to the client under the very id that this connection named.
pub Reach-joined : {s : Rendezvous} → Reach s → All HasOwnId s.joined
Reach-joined r = (IsMatched-reach r).paired

-- In every state that is reached the loop of data connections can go on: its hand is empty, so that it
-- takes the next connection whatever that names, or the channel in its hand is empty, so that the send
-- does not block.
pub Reach-sends :
    (s : Rendezvous) (first : Option String) (conn : ℕ)
    → Reach s
    → ((s.in_hand ≡ none) × Step s (claim first conn s))
      ⊎ ((ch : ℕ) × (d : DataConn) × (s.in_hand ≡ some (ch, d))
          × Step s (hand_over ch d s)
          × ((hand_over ch d s).in_hand ≡ none))
unfolding hand_over
Reach-sends s first conn r = elim (Option-cases s.in_hand) [
  | inr n ↦ inl (n, connects s first conn n)
  | inl ((ch, d), f) ↦ inr (ch, d, f, sends s ch d f ((IsMatched-reach r).held ch d f).1, refl)
]
