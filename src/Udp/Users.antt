-- ===== src/Udp/Users.antt =====
-- The session that a user gets, and whose it is.
use nexus_link.Base.{ℕ, ◌+◌, ◌^◌, ◌≤◌, ◌<◌, String, ◌≡◌, refl, sym, ap, ◌∙◌, ◌↔◌, inl, inr}
use nexus_link.Base.{some, List, arith}
use nexus_link.Base.{Option-cases, Eq-nat, Eq-string, Eq-bytes}
use nexus_link.Base.Dict.{lookup, lookup-insert, lookup-insert_self}
use nexus_link.Base.Word.{add64}
use nexus_link.Udp.Channel.{Session, Channel, session_id, get_or_create_session}
use nexus_link.Udp.Pairing.{IsPaired, IsPaired-get_or_create}

pub session_seq-get_or_create :
    (now : ℕ) (user : String) (c : Channel)
    → c.session_seq + 1 < 2 ^ 64
    → (get_or_create_session now user c).1.session_seq ≤ c.session_seq + 1
unfolding get_or_create_session
session_seq-get_or_create now user c b = ground arith

-- whatever session a user gets, the table has it under that user
pub owner-get_or_create :
    (now : ℕ) (user : String) (c : Channel)
    → IsPaired c
    → let ((sid, is_new), c1) = get_or_create_session now user c in
      (lookup user c1.addr_index ≡ some sid)
      × ((s : Session) × (lookup sid c1.sessions ≡ some s) × (s.user_addr ≡ user))
unfolding get_or_create_session
owner-get_or_create now user c p = elim (Option-cases (lookup user c.addr_index)) [
  | inl (sid, h) ↦
      let (s, found, owner) = p.forward user sid h in
      let s1 : Session = record s { last_active = now } in
      rw (h, found, get_or_create_session) (h, (s1, lookup-insert_self sid s1 c.sessions, owner))
  | inr h ↦
      let sid = session_id (add64 c.session_seq 1) in
      let s : Session = record { user_addr = user; last_active = now } in
      rw (h, get_or_create_session)
        (lookup-insert_self user sid c.addr_index, (s, lookup-insert_self sid s c.sessions, refl))
]

pub index-get_or_create :
    (now : ℕ) (user : String) (c : Channel) (u : String) (sid : List ℕ)
    → lookup u c.addr_index ≡ some sid
    → lookup u (get_or_create_session now user c).1.addr_index ≡ some sid
unfolding get_or_create_session
index-get_or_create now user c u sid h = ground (
  arith,
  lookup-insert user u (session_id (add64 c.session_seq 1)) c.addr_index,
  Eq-string.same_iff user u,
)

pub session-get_or_create :
    (now : ℕ) (user : String) (c : Channel) (sid : List ℕ)
    → lookup user c.addr_index ≡ some sid
    → (get_or_create_session now user c).0.0 ≡ sid
unfolding get_or_create_session
session-get_or_create now user c sid h = rw (h, get_or_create_session) refl

-- In a channel whose sessions and index are inverse to each other, and that has numbers left, two
-- users that send one after the other get the same session exactly when they are one user.
pub get_or_create-eq :
    (t t' : ℕ) (u v : String) (c : Channel)
    → IsPaired c
    → c.session_seq + 2 < 2 ^ 64
    → let ((sid, is_new), c1) = get_or_create_session t u c in
      let ((sid', is_new'), c2) = get_or_create_session t' v c1 in (sid ≡ sid') ↔ (u ≡ v)
get_or_create-eq t t' u v c p b =
    let c1 = (get_or_create_session t u c).1 in
    let p1 = IsPaired-get_or_create t u c p (omega arith) in
    let b1 = session_seq-get_or_create t u c (omega arith) in
    let (index, (s, found, owner)) = owner-get_or_create t u c p in
    let (index', (s', found', owner')) = owner-get_or_create t' v c1 p1 in
    let p2 = IsPaired-get_or_create t' v c1 p1 (omega (arith, b1)) in
    let (s2, found2, owner2) = p2.forward u _ (index-get_or_create t' v c1 u _ index) in
    (
      λ e. ground (arith, e, found', owner', found2, owner2),
      λ e. sym (session-get_or_create t' v c1 _ (ap (λ w. lookup w c1.addr_index) (sym e) ∙ index)),
    )
