-- ===== src/Guard/Bound.antt =====
-- The counts of open connections do not pass the maximum, whatever the method that the server calls.
use mathlib.Core.Path.{subst}
use nexus_link.Base.{ℕ, ◌≤◌, String, ◌≡◌, refl, sym, ap, ◌∙◌, inl, inr}
use nexus_link.Base.{Bool, false, ◌&&◌, Option, arith}
use nexus_link.Base.{Bool-cases, &&-true, ◌==◌, Eq-nat, Eq-string, Eq-bytes, Eq-pair}
use nexus_link.Guard.State.{
  ConnGuard, Addr, get_ip, is_loopback, at, check, is_whitelisted, ban_for_bad_behavior, release,
}
use nexus_link.Guard.Counts.{count-misbehave}
use nexus_link.Guard.Tally.{check_listed, Tallies-check, ban-tally, release-tally}
use nexus_link.Guard.Admission.{check_admits_iff}

-- no address counts more than the maximum, unless it is one of this machine
abbrev pub IsBounded : {Net : Type 0} → ConnGuard Net → Type 0
IsBounded g = (ip : String) → is_loopback ip ≡ false → at g.conn_count ip ≤ g.max_conn

pub IsBounded-same :
    {Net : Type 0} (g g' : ConnGuard Net)
    → g'.conn_count ≡ g.conn_count
    → g'.max_conn ≡ g.max_conn
    → IsBounded g
    → IsBounded g'
IsBounded-same g g' c m h ip l =
    let same : at g'.conn_count ip ≡ at g.conn_count ip = ap (λ x. at x ip) c in
    omega (arith, same, m, h ip l)

max-release :
    {Net : Type 0} (g : ConnGuard Net) (conn : Addr) → (release g conn).max_conn ≡ g.max_conn
unfolding release
max-release g conn = ground arith

pub IsBounded-release :
    {Net : Type 0} (g : ConnGuard Net) (conn : Addr) → IsBounded g → IsBounded (release g conn)
IsBounded-release g conn h ip l =
    ground (arith, release-tally g conn ip, max-release g conn, h ip l)

module _ {Ip Net : Type 0} (parse_ip : String → Option Ip) (contains : Net → Ip → Bool) where
  max-check :
      (g : ConnGuard Net) (now : ℕ) (conn : Addr)
      → (check parse_ip contains g now conn).1.max_conn ≡ g.max_conn
  unfolding check
  max-check g now conn = ground arith

  pub IsBounded-check :
      (g : ConnGuard Net) (now : ℕ) (conn : Addr)
      → IsBounded g
      → IsBounded (check parse_ip contains g now conn).1
  IsBounded-check g now conn h =
      let ip = get_ip conn in
      let r = check parse_ip contains g now conn in
      elim (Bool-cases (is_whitelisted parse_ip contains g ip)) [
        | inl w ↦
            subst (λ (x : Bool × ConnGuard Net). IsBounded x.1)
              (sym (check_listed parse_ip contains g now conn w)) h
        | inr w ↦ λ j l.
            let one = (Tallies-check parse_ip contains g now conn w).tally j in
            elim (Bool-cases (r.0 && ip == j)) [
              | inr q ↦ ground (arith, one, q, max-check g now conn, h j l)
              | inl q ↦
                  let (a, s) = &&-true r.0 (ip == j) q in
                  let same : ip ≡ j = (Eq-string.same_iff ip j).0 s in
                  let far : is_loopback ip ≡ false = ap is_loopback same ∙ l in
                  let (b, i, room) = (check_admits_iff parse_ip contains g now conn (w, far)).0 a in
                  let count : at g.conn_count ip ≡ at g.conn_count j = ap (at g.conn_count) same in
                  ground (arith, one, q, count, room, max-check g now conn)
            ]
      ]

  ban_max :
      (g : ConnGuard Net) (now : ℕ) (conn : Addr)
      → (ban_for_bad_behavior parse_ip contains g now conn).max_conn ≡ g.max_conn
  unfolding ban_for_bad_behavior
  ban_max g now conn = elim (Bool-cases (is_whitelisted parse_ip contains g (get_ip conn))) [
    | inl q ↦ rw (q, ban_for_bad_behavior) refl
    | inr q ↦ rw (q, ban_for_bad_behavior) (count-misbehave g now (get_ip conn)).1
  ]

  pub IsBounded-ban :
      (g : ConnGuard Net) (now : ℕ) (conn : Addr)
      → IsBounded g
      → IsBounded (ban_for_bad_behavior parse_ip contains g now conn)
  IsBounded-ban g now conn h =
      IsBounded-same g (ban_for_bad_behavior parse_ip contains g now conn)
        (ban-tally parse_ip contains g now conn).0 (ban_max g now conn) h
