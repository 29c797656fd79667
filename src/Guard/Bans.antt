-- ===== src/Guard/Bans.antt =====
-- When an address is banned, and for how long; an admitted connection and its release.
use nexus_link.Base.{ℕ, ◌+◌, ◌-◌, ◌<◌, String, ◌≡◌, refl, ap, ◌∙◌}
use nexus_link.Base.{Bool, true, false, Option, some, List, [], ◌∷◌, arith, ltb, leb, if◌then◌else◌}
use nexus_link.Base.{◌==◌, Eq-nat, Eq-string, Eq-bytes, ==_refl}
use nexus_link.Base.{length}
use nexus_link.Base.Dict.{Dict, lookup, insert, lookup-insert_self}
use text.Mathlib.TextEquality.{eq_iff}
use nexus_link.Guard.State.{
  ConnGuard, Addr, get_ip, at, misbehave, check, ban_for_bad_behavior, release, is_banned,
  is_whitelisted,
}
use nexus_link.Guard.Admission.{Restricted, check_admitted, same_whitelist}
use nexus_link.Guard.Counts.{at-insert, at-misbehave}

-- An offence below the threshold leaves the blacklist as it was; the one that reaches it bans.
blacklist-misbehave :
    {Net : Type 0} (g : ConnGuard Net) (now : ℕ) (ip : String)
    → (misbehave g now ip).blacklist ≡ (
        if leb g.ban_threshold (at g.misbehavior ip + 1)
        then insert ip now g.blacklist
        else g.blacklist)
unfolding misbehave
blacklist-misbehave g now ip = ground arith

settings-misbehave :
    {Net : Type 0} (g : ConnGuard Net) (now : ℕ) (ip : String)
    → let g' = misbehave g now ip in
      (g'.whitelist ≡ g.whitelist)
      × (g'.ban_threshold ≡ g.ban_threshold)
      × (g'.ban_duration ≡ g.ban_duration)
unfolding misbehave
settings-misbehave g now ip = (ground arith, ground arith, ground arith)

is_banned_since :
    {Net : Type 0} (g : ConnGuard Net) (u : ℕ) (ip : String) (t : ℕ)
    → lookup ip g.blacklist ≡ some t
    → is_banned g u ip ≡ ltb (u - t) g.ban_duration
unfolding is_banned
is_banned_since g u ip t h = rw (h, is_banned)

at-release :
    {Net : Type 0} (g : ConnGuard Net) (conn : Addr) (j : String)
    → at (release g conn).conn_count j
      ≡ (if get_ip conn == j then at g.conn_count j - 1 else at g.conn_count j)
unfolding release
at-release g conn j =
    let ip = get_ip conn in
    ground (arith, at-insert ip j (at g.conn_count ip - 1) g.conn_count, eq_iff ip j)

module _ {Ip Net : Type 0} (parse_ip : String → Option Ip) (contains : Net → Ip → Bool) where
  -- bad behaviour of one connection at each of some times
  unfoldable pub offences : ConnGuard Net → List ℕ → Addr → ConnGuard Net
  offences g [] conn = g
  offences g (t ∷ ts) conn = offences (ban_for_bad_behavior parse_ip contains g t conn) ts conn

  -- what a series of offences below the threshold leaves
  record Warned (g g' : ConnGuard Net) (ip : String) (n : ℕ) : Type 0 where
    counted : at g'.misbehavior ip ≡ at g.misbehavior ip + n
    same_blacklist : g'.blacklist ≡ g.blacklist
    same_nets : g'.whitelist ≡ g.whitelist
    same_threshold : g'.ban_threshold ≡ g.ban_threshold
    same_duration : g'.ban_duration ≡ g.ban_duration

  offence-misbehave :
      (g : ConnGuard Net) (t : ℕ) (conn : Addr)
      → is_whitelisted parse_ip contains g (get_ip conn) ≡ false
      → ban_for_bad_behavior parse_ip contains g t conn ≡ misbehave g t (get_ip conn)
  unfolding ban_for_bad_behavior
  offence-misbehave g t conn w = rw w

  Warned-misbehave :
      (g : ConnGuard Net) (t : ℕ) (ip : String)
      → at g.misbehavior ip + 1 < g.ban_threshold
      → Warned g (misbehave g t ip) ip 1
  Warned-misbehave g t ip h =
      let (s1, s2, s3) = settings-misbehave g t ip in
      record {
        counted = ground (arith, at-misbehave g t ip ip, eq_iff ip ip);
        same_blacklist = ground (arith, blacklist-misbehave g t ip);
        same_nets = s1;
        same_threshold = s2;
        same_duration = s3;
      }

  Warned-offences :
      (g : ConnGuard Net) (ts : List ℕ) (conn : Addr)
      → is_whitelisted parse_ip contains g (get_ip conn) ≡ false
      → at g.misbehavior (get_ip conn) + length ts < g.ban_threshold
      → Warned g (offences g ts conn) (get_ip conn) (length ts)
  unfolding offences
  Warned-offences g [] conn w h = record {
    counted = omega arith;
    same_blacklist = refl;
    same_nets = refl;
    same_threshold = refl;
    same_duration = refl;
  }
  Warned-offences g (t ∷ ts) conn w h =
      let ip = get_ip conn in
      let g1 = misbehave g t ip in
      let first = Warned-misbehave g t ip (omega arith) in
      let w1 = same_whitelist parse_ip contains g g1 ip first.same_nets ∙ w in
      let rest =
        Warned-offences g1 ts conn w1 (omega (arith, first.counted, first.same_threshold)) in
      rw (offence-misbehave g t conn w) (record {
        counted = omega (arith, first.counted, rest.counted);
        same_blacklist = rest.same_blacklist ∙ first.same_blacklist;
        same_nets = rest.same_nets ∙ first.same_nets;
        same_threshold = rest.same_threshold ∙ first.same_threshold;
        same_duration = rest.same_duration ∙ first.same_duration;
      })

  -- The offence of an address that is not on the whitelist which reaches the threshold bans it, from
  -- its time on for the ban's duration; those before it change nothing about bans.
  pub offences_ban :
      (g : ConnGuard Net) (ts : List ℕ) (t u : ℕ) (conn : Addr)
      → is_whitelisted parse_ip contains g (get_ip conn) ≡ false
      → at g.misbehavior (get_ip conn) + length ts + 1 ≡ g.ban_threshold
      → let warned = offences g ts conn in
        let banned = ban_for_bad_behavior parse_ip contains warned t conn in
        (warned.blacklist ≡ g.blacklist)
        × (is_banned banned u (get_ip conn) ≡ ltb (u - t) g.ban_duration)
        × (at banned.misbehavior (get_ip conn) ≡ 0)
  offences_ban g ts t u conn w h =
      let ip = get_ip conn in
      let v = Warned-offences g ts conn w (omega arith) in
      let g1 = offences g ts conn in
      let w1 = same_whitelist parse_ip contains g g1 ip v.same_nets ∙ w in
      let (s1, s2, s3) = settings-misbehave g1 t ip in
      let full : leb g1.ban_threshold (at g1.misbehavior ip + 1) ≡ true =
        ground (arith, v.counted, v.same_threshold) in
      let since : lookup ip (misbehave g1 t ip).blacklist ≡ some t =
        ap (λ (m : Dict String ℕ). lookup ip m) (blacklist-misbehave g1 t ip)
        ∙ rw full (lookup-insert_self ip t g1.blacklist) in
      (
        v.same_blacklist,
        rw (offence-misbehave g1 t conn w1)
            (is_banned_since (misbehave g1 t ip) u ip t since ∙ rw (s3, v.same_duration)),
        rw (offence-misbehave g1 t conn w1, at-misbehave g1 t ip ip, ==_refl ip, full),
      )

  -- The release of an admitted restricted connection gives every address the count that it had before.
  pub release-check :
      (g : ConnGuard Net) (now : ℕ) (conn : Addr) (ip : String)
      → Restricted parse_ip contains g conn
      → (check parse_ip contains g now conn).0 ≡ true
      → at (release (check parse_ip contains g now conn).1 conn).conn_count ip ≡ at g.conn_count ip
  release-check g now conn ip r a =
      let me = get_ip conn in
      let n = at g.conn_count me + 1 in
      let (e1, e2, e3, e4, e5) = check_admitted parse_ip contains g now conn r a in
      at-release (check parse_ip contains g now conn).1 conn ip
      ∙ rw e2 (ground (arith, at-insert me ip n g.conn_count, eq_iff me ip))
