-- ===== src/Guard/Counts.antt =====
-- The counts of open connections stay within the maximum.
use nexus_link.Base.{ℕ, ◌+◌, ◌≤◌, ◌<◌, String, ◌≡◌, inl, inr}
use nexus_link.Base.{Bool, true, false, Option, List, [], ◌∷◌, arith, leb, if◌then◌else◌}
use nexus_link.Base.{Bool-cases, ◌==◌, Eq-nat, Eq-string, Eq-bytes}
use nexus_link.Base.Dict.{Dict, insert, remove, lookup-insert, lookup-remove}
use text.Mathlib.TextEquality.{eq_iff}
use nexus_link.Guard.State.{
  ConnGuard, Addr, is_loopback, at, misbehave, check, ban_for_bad_behavior, ban_ip, release,
  clear_misbehavior, get_stats,
}

pub at-insert :
    (k j : String) (n : ℕ) (m : Dict String ℕ)
    → at (insert k n m) j ≡ (if k == j then n else at m j)
at-insert k j n m = ground (arith, lookup-insert k j n m)

pub at-remove :
    (k j : String) (m : Dict String ℕ) → at (remove k m) j ≡ (if k == j then 0 else at m j)
at-remove k j m = ground (arith, lookup-remove k j m)

pub at-misbehave :
    {Net : Type 0} (g : ConnGuard Net) (now : ℕ) (ip j : String)
    → at (misbehave g now ip).misbehavior j ≡ (
        let n = at g.misbehavior ip + 1 in
        if ip == j then (if leb g.ban_threshold n then 0 else n) else at g.misbehavior j)
unfolding misbehave
at-misbehave g now ip j =
    let n = at g.misbehavior ip + 1 in
    ground (arith, at-insert ip j 0 (insert ip n g.misbehavior), at-insert ip j n g.misbehavior)

pub count-misbehave :
    {Net : Type 0} (g : ConnGuard Net) (now : ℕ) (ip : String)
    → let g' = misbehave g now ip in
      (g'.conn_count ≡ g.conn_count)
      × (g'.max_conn ≡ g.max_conn)
      × (g'.ban_threshold ≡ g.ban_threshold)
unfolding misbehave
count-misbehave g now ip = (ground arith, ground arith, ground arith)

module _ {Ip Net : Type 0} (parse_ip : String → Option Ip) (contains : Net → Ip → Bool) where
  -- One call of a method.
  pub data Call : Type 0 where
    checks : ℕ → Addr → Call
    releases : Addr → Call
    bans_behavior : ℕ → Addr → Call
    bans : ℕ → String → Call
    clears : String → Call
    stats : ℕ → Call

  unfoldable pub run_call : ConnGuard Net → Call → ConnGuard Net
  run_call g (checks now conn) = (check parse_ip contains g now conn).1
  run_call g (releases conn) = release g conn
  run_call g (bans_behavior now conn) = ban_for_bad_behavior parse_ip contains g now conn
  run_call g (bans now ip) = ban_ip parse_ip contains g now ip
  run_call g (clears ip) = clear_misbehavior g ip
  run_call g (stats now) = (get_stats g now).1

  unfoldable pub run_calls : ConnGuard Net → List Call → ConnGuard Net
  unfolding run_call
  run_calls g [] = g
  run_calls g (c ∷ cs) = run_calls (run_call g c) cs

  -- The limits that hold between two calls: an address that is not from this machine counts at most
  -- the maximum of connections, and no address has reached the threshold without being banned.
  pub record IsWithin (g : ConnGuard Net) : Type 0 where
    pub open_connections : (ip : String) → is_loopback ip ≡ false → at g.conn_count ip ≤ g.max_conn
    pub threshold_positive : 0 < g.ban_threshold
    pub below_threshold : (ip : String) → at g.misbehavior ip < g.ban_threshold

  pub misbehave-IsWithin :
      (g : ConnGuard Net) (now : ℕ) (ip : String) → IsWithin g → IsWithin (misbehave g now ip)
  misbehave-IsWithin g now ip h =
      let (c, m, t) = count-misbehave g now ip in
      record {
        open_connections = λ j l. rw (c, m) (h.open_connections j l);
        threshold_positive = rw t h.threshold_positive;
        below_threshold = λ j. rw t (
            rw (at-misbehave g now ip j)
              (ground (arith, h.below_threshold j, h.threshold_positive)));
      }

  -- a connection more for an address with room for it
  pub admit-IsWithin :
      (g : ConnGuard Net) (now : ℕ) (ip : String)
      → (is_loopback ip ≡ false → at g.conn_count ip < g.max_conn)
      → IsWithin g
      → IsWithin (record g {
        last_conn = insert ip now g.last_conn;
        conn_count = insert ip (at g.conn_count ip + 1) g.conn_count;
      })
  admit-IsWithin g now ip room h = record {
    open_connections = λ j l.
        rw (at-insert ip j (at g.conn_count ip + 1) g.conn_count)
          (more ip j l (room_at j l) (h.open_connections j l));
    threshold_positive = h.threshold_positive;
    below_threshold = h.below_threshold;
  }
    where
      room_at :
          (j : String) → is_loopback j ≡ false → (ip == j) ≡ true → at g.conn_count ip < g.max_conn
      room_at j l e = room (rw (← (eq_iff ip j).0 e) at l)

      more :
          (ip j : String)
          → is_loopback j ≡ false
          → ((ip == j) ≡ true → at g.conn_count ip < g.max_conn)
          → at g.conn_count j ≤ g.max_conn
          → (if ip == j then at g.conn_count ip + 1 else at g.conn_count j) ≤ g.max_conn
      more ip j l r k = elim (Bool-cases (ip == j)) [
        | inl e ↦ rw e (omega (arith, r e))
        | inr e ↦ rw e k
      ]
