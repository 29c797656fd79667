-- ===== src/Udp/Cleanup.antt =====
-- Which sessions a tick of cleanup leaves.
use nexus_link.Base.{ℕ, ◌-◌, ◌≤◌, ◌≡◌, ◌∙◌, ◌↔◌, inl, inr}
use nexus_link.Base.{Bool, ◌&&◌, Option, none, some, List, [], ◌∷◌, arith, ltb, if◌then◌else◌}
use nexus_link.Base.{Bool-cases, Option-cases, Eq-nat, Eq-string, Eq-bytes}
use nexus_link.Base.Dict.{lookup, lookup-remove, keys, visits, visits-keys}
use nexus_link.Udp.Channel.{
  Session, Channel, delete_session, cleanup_loop, cleanup_sessions, idle_limit,
}

-- what becomes of a session, visited or not
unfoldable pub survivor : ℕ → Bool → Option Session → Option Session
survivor now visited none = none
survivor now visited (some s) =
    if visited && ltb idle_limit (now - s.last_active) then none else some s

lookup-cleanup_loop :
    (now : ℕ) (order : List (List ℕ)) (c : Channel) (sid : List ℕ)
    → lookup sid (cleanup_loop now order c).sessions
      ≡ survivor now (visits order sid) (lookup sid c.sessions)
unfolding cleanup_loop survivor visits delete_session
lookup-cleanup_loop now [] c sid = ground arith
lookup-cleanup_loop now (k ∷ rest) c sid = elim (Option-cases (lookup k c.sessions)) [
  | inr h ↦
      rw (h, cleanup_loop)
        (ground (arith, lookup-cleanup_loop now rest c sid, Eq-bytes.same_iff k sid))
  | inl (s, h) ↦
      rw (h, cleanup_loop)
        (elim (Bool-cases (ltb idle_limit (now - s.last_active))) [
          | inl q ↦
              let c1 = delete_session k s c in
              rw (q, cleanup_loop)
                (lookup-cleanup_loop now rest c1 sid
                  ∙ ground (arith, lookup-remove k sid c.sessions, Eq-bytes.same_iff k sid))
          | inr q ↦
              rw (q, cleanup_loop)
                (lookup-cleanup_loop now rest c sid ∙ ground (arith, Eq-bytes.same_iff k sid))
        ])
]

-- After a tick of cleanup a session is there exactly when it was there before and its last activity is
-- at most five minutes ago; it is unchanged.
pub lookup-cleanup_sessions :
    (now : ℕ) (c : Channel) (sid : List ℕ) (s : Session)
    → (lookup sid (cleanup_sessions now c).sessions ≡ some s)
      ↔ ((lookup sid c.sessions ≡ some s) × (now - s.last_active ≤ idle_limit))
unfolding cleanup_sessions survivor
lookup-cleanup_sessions now c sid s =
    let order = keys c.sessions in
    let after = lookup-cleanup_loop now order c sid in
    (
      λ h. elim (Option-cases (lookup sid c.sessions)) [
        | inl (s', l) ↦ ground (arith, after, visits-keys c.sessions sid s' l)
        | inr l ↦ ground (arith, after)
      ],
      λ h. ground (arith, after, visits-keys c.sessions sid s h.0),
    )
