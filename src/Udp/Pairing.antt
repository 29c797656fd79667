-- ===== src/Udp/Pairing.antt =====
-- The sessions of a channel and the index of its users are inverse to each other.
use nexus_link.Base.{ℕ, ◌+◌, ◌-◌, ◌^◌, ◌≤◌, ◌<◌, String, ◌≡◌, refl, sym, ◌∙◌, ◌≢◌, inl, inr}
use nexus_link.Base.{false, none, some, List, [], ◌∷◌, arith, ltb}
use nexus_link.Base.{Bool-cases, Option-cases, ◌==◌, Eq-nat, Eq-string, Eq-bytes, bytes_eq_iff}
use nexus_link.Base.Dict.{
  lookup, insert, lookup-insert, lookup-insert_self, apart, lookup-insert_other,
  lookup-remove_other, insert_cases, remove_cases,
}
use nexus_link.Base.Word.{add64}
use text.Mathlib.TextEquality.{eq_iff}
use nexus_link.Udp.Channel.{
  Session, Channel, session_id, get_or_create_session, delete_session, close_session, cleanup_loop,
  idle_limit,
}
use nexus_link.Udp.SessionId.{session_id-injective}

-- every user that is indexed has its session, every session is that of its user, and the ids in use are
-- those of sequence numbers that have been given out
pub record IsPaired (c : Channel) : Type 0 where
  pub forward :
      (u : String) (sid : List ℕ)
      → lookup u c.addr_index ≡ some sid
      → (s : Session) × (lookup sid c.sessions ≡ some s) × (s.user_addr ≡ u)
  pub backward :
      (sid : List ℕ) (s : Session)
      → lookup sid c.sessions ≡ some s
      → lookup s.user_addr c.addr_index ≡ some sid
  pub given :
      (sid : List ℕ) (s : Session)
      → lookup sid c.sessions ≡ some s
      → (n : ℕ) × (n ≤ c.session_seq) × (sid ≡ session_id n)

-- deletion of a session with its index entry
IsPaired-delete :
    (c : Channel) (sid : List ℕ) (s : Session)
    → IsPaired c
    → lookup sid c.sessions ≡ some s
    → IsPaired (delete_session sid s c)
unfolding delete_session
IsPaired-delete c sid s p h = record {
  forward = λ u id l.
      let (q, l') = remove_cases s.user_addr u id c.addr_index l in
      let (s', found, owner) = p.forward u id l' in
      let other : (sid == id) ≡ false =
        apart sid id (λ e. ground (arith, e, found, owner, h, q, eq_iff s.user_addr u)) in
      (s', lookup-remove_other sid id c.sessions other ∙ found, owner);
  backward = λ id s' l.
      let (q, l') = remove_cases sid id s' c.sessions l in
      let b = p.backward id s' l' in
      let other : (s.user_addr == s'.user_addr) ≡ false =
        apart s.user_addr s'.user_addr
          (λ e. ground (arith, e, b, p.backward sid s h, q, bytes_eq_iff sid id)) in
      lookup-remove_other s.user_addr s'.user_addr c.addr_index other ∙ b;
  given = λ id s' l. p.given id s' (remove_cases sid id s' c.sessions l).1;
}

pub IsPaired-close : (c : Channel) (sid : List ℕ) → IsPaired c → IsPaired (close_session sid c)
unfolding close_session
IsPaired-close c sid p = elim (Option-cases (lookup sid c.sessions)) [
  | inl (s, h) ↦ rw (h, close_session) (IsPaired-delete c sid s p h)
  | inr h ↦ rw (h, close_session) p
]

-- activity on a session
pub IsPaired-touch :
    (c : Channel) (sid : List ℕ) (s : Session) (now : ℕ)
    → IsPaired c
    → lookup sid c.sessions ≡ some s
    → IsPaired (record c { sessions = insert sid (record s { last_active = now }) c.sessions })
IsPaired-touch c sid s now p h =
    let s1 : Session = record s { last_active = now } in
    record {
      forward = λ u id l.
          let (s', found, owner) = p.forward u id l in
          elim (Bool-cases (sid == id)) [
            | inl q ↦ (
              s1,
              lookup-insert sid id s1 c.sessions ∙ rw q refl,
              ground (arith, owner, found, h, q, bytes_eq_iff sid id),
            )
            | inr q ↦ (s', lookup-insert_other sid id s1 c.sessions q ∙ found, owner)
          ];
      backward = λ id s' l. elim (insert_cases sid id s1 s' c.sessions l) [
        | inl (e, e') ↦ ground (arith, e, e', p.backward sid s h)
        | inr (q, l') ↦ p.backward id s' l'
      ];
      given = λ id s' l. elim (insert_cases sid id s1 s' c.sessions l) [
        | inl (e, e') ↦ let (n, le, is) = p.given sid s h in (n, le, sym e ∙ is)
        | inr (q, l') ↦ p.given id s' l'
      ];
    }

-- the next id is not in use
fresh_id :
    (c : Channel) (sid : List ℕ) (s : Session)
    → IsPaired c
    → c.session_seq + 1 < 2 ^ 64
    → lookup sid c.sessions ≡ some s
    → session_id (add64 c.session_seq 1) ≢ sid
fresh_id c sid s p b h e =
    let (n, le, is) = p.given sid s h in
    let same =
      session_id-injective (add64 c.session_seq 1) n (omega arith) (omega arith) (e ∙ is) in
    omega arith

-- the state that a new session of a user leaves
IsPaired-create :
    (now : ℕ) (user : String) (c : Channel)
    → IsPaired c
    → c.session_seq + 1 < 2 ^ 64
    → lookup user c.addr_index ≡ none
    → let seq = add64 c.session_seq 1 in
      let s : Session = record { user_addr = user; last_active = now } in
      IsPaired (record c {
        session_seq = seq;
        sessions = insert (session_id seq) s c.sessions;
        addr_index = insert user (session_id seq) c.addr_index;
      })
IsPaired-create now user c p b h =
    let seq = add64 c.session_seq 1 in
    let new = session_id seq in
    let s : Session = record { user_addr = user; last_active = now } in
    record {
      forward = λ u id l. elim (insert_cases user u new id c.addr_index l) [
        | inl (e, e') ↦
            (s, lookup-insert new id s c.sessions ∙ rw ((Eq-bytes.same_iff new id).1 e') refl, e)
        | inr (q, l') ↦
            let (s', found, owner) = p.forward u id l' in
            (
              s',
              lookup-insert_other new id s c.sessions (apart new id (fresh_id c id s' p b found))
                  ∙ found,
              owner,
            )
      ];
      backward = λ id s' l. elim (insert_cases new id s s' c.sessions l) [
        | inl (e, e') ↦ ground (arith, e, e', lookup-insert_self user new c.addr_index)
        | inr (q, l') ↦
            let old = p.backward id s' l' in
            lookup-insert_other user s'.user_addr new c.addr_index
              (apart user s'.user_addr (λ e. ground (arith, e, old, h)))
            ∙ old
      ];
      given = λ id s' l. elim (insert_cases new id s s' c.sessions l) [
        | inl (e, e') ↦ (seq, omega arith, sym e)
        | inr (q, l') ↦ let (n, le, is) = p.given id s' l' in (n, omega arith, is)
      ];
    }

pub IsPaired-get_or_create :
    (now : ℕ) (user : String) (c : Channel)
    → IsPaired c
    → c.session_seq + 1 < 2 ^ 64
    → IsPaired (get_or_create_session now user c).1
unfolding get_or_create_session
IsPaired-get_or_create now user c p b = elim (Option-cases (lookup user c.addr_index)) [
  | inl (sid, h) ↦
      let (s, found, owner) = p.forward user sid h in
      rw (h, found, get_or_create_session) (IsPaired-touch c sid s now p found)
  | inr h ↦ rw (h, get_or_create_session) (IsPaired-create now user c p b h)
]

-- one step of cleanup, and all of them, in whatever order the sessions are visited
pub IsPaired-cleanup_loop :
    (now : ℕ) (order : List (List ℕ)) (c : Channel)
    → IsPaired c
    → IsPaired (cleanup_loop now order c)
unfolding cleanup_loop
IsPaired-cleanup_loop now [] c p = p
IsPaired-cleanup_loop now (sid ∷ rest) c p = elim (Option-cases (lookup sid c.sessions)) [
  | inr h ↦ rw (h, cleanup_loop) (IsPaired-cleanup_loop now rest c p)
  | inl (s, h) ↦
      rw (h, cleanup_loop)
        (elim (Bool-cases (ltb idle_limit (now - s.last_active))) [
          | inl q ↦
              rw (q, cleanup_loop) (IsPaired-cleanup_loop now rest _ (IsPaired-delete c sid s p h))
          | inr q ↦ rw (q, cleanup_loop) (IsPaired-cleanup_loop now rest c p)
        ])
]
