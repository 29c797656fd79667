-- ===== src/Guard/Limits.antt =====
-- Every method of the guard keeps its limits.
use nexus_link.Base.{ℕ, ◌-◌, String, inl, inr}
use nexus_link.Base.{Bool, Option, List, [], ◌∷◌, arith, ltb, leb}
use nexus_link.Base.{Bool-cases, Option-cases, Eq-nat, Eq-string, Eq-bytes}
use nexus_link.Base.{keep}
use nexus_link.Base.Dict.{Dict, lookup, insert, remove}
use text.Mathlib.TextEquality.{eq_iff}
use nexus_link.Guard.State.{
  ConnGuard, Addr, get_ip, is_loopback, at, ban, check_count, check_rate, check_banned, check,
  ban_for_bad_behavior, ban_ip, release, clear_misbehavior, get_stats, is_whitelisted,
}
use nexus_link.Guard.Counts.{
  Call, checks, releases, bans_behavior, bans, clears, stats, run_call, run_calls, IsWithin,
  misbehave-IsWithin, admit-IsWithin, at-insert, at-remove,
}

module _ {Ip Net : Type 0} (parse_ip : String → Option Ip) (contains : Net → Ip → Bool) where
  count-IsWithin :
      (g : ConnGuard Net) (now : ℕ) (ip : String)
      → IsWithin parse_ip contains g
      → IsWithin parse_ip contains (check_count g now ip).1
  unfolding check_count
  count-IsWithin g now ip h = elim (Bool-cases (leb g.max_conn (at g.conn_count ip))) [
    | inl e ↦ rw e (misbehave-IsWithin parse_ip contains g now ip h)
    | inr e ↦ rw e (admit-IsWithin parse_ip contains g now ip (λ _. ground arith) h)
  ]

  rate-IsWithin :
      (g : ConnGuard Net) (now : ℕ) (ip : String)
      → IsWithin parse_ip contains g
      → IsWithin parse_ip contains (check_rate g now ip).1
  unfolding check_rate
  rate-IsWithin g now ip h = elim (Option-cases (lookup ip g.last_conn)) [
    | inl (last, e) ↦
        rw (e, check_rate)
          (elim (Bool-cases (ltb (now - last) g.min_interval)) [
            | inl b ↦ rw b (misbehave-IsWithin parse_ip contains g now ip h)
            | inr b ↦ rw b (count-IsWithin g now ip h)
          ])
    | inr e ↦ rw (e, check_rate) (count-IsWithin g now ip h)
  ]

  unban-IsWithin :
      (g : ConnGuard Net) (m : Dict String ℕ)
      → IsWithin parse_ip contains g
      → IsWithin parse_ip contains (record g { blacklist = m })
  unban-IsWithin g m h = record {
    open_connections = h.open_connections;
    threshold_positive = h.threshold_positive;
    below_threshold = h.below_threshold;
  }

  banned-IsWithin :
      (g : ConnGuard Net) (now : ℕ) (ip : String)
      → IsWithin parse_ip contains g
      → IsWithin parse_ip contains (check_banned g now ip).1
  unfolding check_banned
  banned-IsWithin g now ip h = elim (Option-cases (lookup ip g.blacklist)) [
    | inl (t, e) ↦
        rw (e, check_banned)
          (elim (Bool-cases (ltb (now - t) g.ban_duration)) [
            | inl b ↦ rw b h
            | inr b ↦ rw b (
                rate-IsWithin (record g { blacklist = remove ip g.blacklist }) now ip
                  (unban-IsWithin g (remove ip g.blacklist) h))
          ])
    | inr e ↦ rw (e, check_banned) (rate-IsWithin g now ip h)
  ]

  check-IsWithin :
      (g : ConnGuard Net) (now : ℕ) (conn : Addr)
      → IsWithin parse_ip contains g
      → IsWithin parse_ip contains (check parse_ip contains g now conn).1
  unfolding check
  check-IsWithin g now conn h =
      let ip = get_ip conn in
      elim (Bool-cases (is_whitelisted parse_ip contains g ip)) [
        | inl w ↦ rw w h
        | inr w ↦ rw w (elim (Bool-cases (is_loopback ip)) [
          | inl l ↦ rw l (admit-IsWithin parse_ip contains g now ip (λ k. cc) h)
          | inr l ↦ rw l (banned-IsWithin g now ip h)
        ])
      ]

  release-IsWithin :
      (g : ConnGuard Net) (conn : Addr)
      → IsWithin parse_ip contains g
      → IsWithin parse_ip contains (release g conn)
  unfolding release
  release-IsWithin g conn h =
      let ip = get_ip conn in
      elim (Bool-cases (ltb 0 (at g.conn_count ip))) [
        | inl b ↦ rw b (record {
          open_connections = λ j l.
              rw (at-insert ip j (at g.conn_count ip - 1) g.conn_count)
                (ground (arith, h.open_connections j l, eq_iff ip j));
          threshold_positive = h.threshold_positive;
          below_threshold = h.below_threshold;
        })
        | inr b ↦ rw b h
      ]

  behavior-IsWithin :
      (g : ConnGuard Net) (now : ℕ) (conn : Addr)
      → IsWithin parse_ip contains g
      → IsWithin parse_ip contains (ban_for_bad_behavior parse_ip contains g now conn)
  unfolding ban_for_bad_behavior
  behavior-IsWithin g now conn h =
      elim (Bool-cases (is_whitelisted parse_ip contains g (get_ip conn))) [
        | inl w ↦ rw w h
        | inr w ↦ rw w (misbehave-IsWithin parse_ip contains g now (get_ip conn) h)
      ]

  ban_ip-IsWithin :
      (g : ConnGuard Net) (now : ℕ) (ip : String)
      → IsWithin parse_ip contains g
      → IsWithin parse_ip contains (ban_ip parse_ip contains g now ip)
  unfolding ban_ip ban
  ban_ip-IsWithin g now ip h = elim (Bool-cases (is_whitelisted parse_ip contains g ip)) [
    | inl w ↦ rw w h
    | inr w ↦ rw w (unban-IsWithin g (insert ip now g.blacklist) h)
  ]

  clear-IsWithin :
      (g : ConnGuard Net) (ip : String)
      → IsWithin parse_ip contains g
      → IsWithin parse_ip contains (clear_misbehavior g ip)
  unfolding clear_misbehavior
  clear-IsWithin g ip h = record {
    open_connections = h.open_connections;
    threshold_positive = h.threshold_positive;
    below_threshold = λ j.
        rw (at-remove ip j g.misbehavior)
          (ground (arith, h.below_threshold j, h.threshold_positive));
  }

  call-IsWithin :
      (g : ConnGuard Net) (c : Call parse_ip contains)
      → IsWithin parse_ip contains g
      → IsWithin parse_ip contains (run_call parse_ip contains g c)
  unfolding run_call get_stats
  call-IsWithin g (checks now conn) h = check-IsWithin g now conn h
  call-IsWithin g (releases conn) h = release-IsWithin g conn h
  call-IsWithin g (bans_behavior now conn) h = behavior-IsWithin g now conn h
  call-IsWithin g (bans now ip) h = ban_ip-IsWithin g now ip h
  call-IsWithin g (clears ip) h = clear-IsWithin g ip h
  call-IsWithin g (stats now) h =
      unban-IsWithin g (keep (λ e. ltb (now - e.1) g.ban_duration) g.blacklist) h

  -- Whatever methods are called, in whatever order: the guard counts at most the maximum of
  -- connections for an address that is not from this machine, and every count of bad behaviour is
  -- below the threshold.
  pub run_calls-IsWithin :
      (g : ConnGuard Net) (cs : List (Call parse_ip contains))
      → IsWithin parse_ip contains g
      → IsWithin parse_ip contains (run_calls parse_ip contains g cs)
  unfolding run_calls
  run_calls-IsWithin g [] h = h
  run_calls-IsWithin g (c ∷ cs) h =
      run_calls-IsWithin (run_call parse_ip contains g c) cs (call-IsWithin g c h)
