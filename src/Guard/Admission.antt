-- ===== src/Guard/Admission.antt =====
-- What ConnGuard.Check admits.
use nexus_link.Base.{ℕ, ◌+◌, ◌-◌, ◌≤◌, ◌<◌, String, ◌≡◌, ap, ◌∙◌, ◌↔◌, inl, inr}
use nexus_link.Base.{Bool, true, false, Option, some, List, arith}
use nexus_link.Base.{Bool-cases, Option-cases, Eq-nat, Eq-string, Eq-bytes}
use nexus_link.Base.Dict.{Dict, lookup, insert, lookup-insert_self}
use nexus_link.Guard.State.{
  ConnGuard, Addr, get_ip, is_loopback, at, on_list, is_whitelisted, check, is_banned,
}

module _ {Ip Net : Type 0} (parse_ip : String → Option Ip) (contains : Net → Ip → Bool) where
  -- A connection that the guard restricts: neither on the whitelist nor from this machine.
  abbrev pub Restricted : ConnGuard Net → Addr → Type 0
  Restricted g conn =
      (is_whitelisted parse_ip contains g (get_ip conn) ≡ false)
      × (is_loopback (get_ip conn) ≡ false)

  -- A restricted address that is banned at the time is refused, and the guard stays as it was.
  pub check_banned_refused :
      (g : ConnGuard Net) (now : ℕ) (conn : Addr)
      → Restricted g conn
      → is_banned g now (get_ip conn) ≡ true
      → check parse_ip contains g now conn ≡ (false, g)
  unfolding check is_banned
  check_banned_refused g now conn r b = ground arith

  -- An address on the whitelist is admitted, banned or not, and nothing is recorded.
  pub check_whitelisted :
      (g : ConnGuard Net) (now : ℕ) (conn : Addr)
      → is_whitelisted parse_ip contains g (get_ip conn) ≡ true
      → check parse_ip contains g now conn ≡ (true, g)
  unfolding check
  check_whitelisted g now conn w = ground arith

  -- A restricted connection is admitted exactly when its address is not banned, its last admitted
  -- connection lies at least the minimal interval back, and fewer than the maximum are open.
  pub check_admits_iff :
      (g : ConnGuard Net) (now : ℕ) (conn : Addr)
      → Restricted g conn
      → ((check parse_ip contains g now conn).0 ≡ true) ↔ (
          (is_banned g now (get_ip conn) ≡ false)
          × ((last : ℕ)
              → lookup (get_ip conn) g.last_conn ≡ some last
              → g.min_interval ≤ now - last)
          × (at g.conn_count (get_ip conn) < g.max_conn))
  unfolding check is_banned
  check_admits_iff g now conn r =
      (λ h. (ground arith, λ last e. ground arith, ground arith), λ h. back h)
    where
      back :
          ((is_banned g now (get_ip conn) ≡ false)
            × ((last : ℕ)
                → lookup (get_ip conn) g.last_conn ≡ some last
                → g.min_interval ≤ now - last)
            × (at g.conn_count (get_ip conn) < g.max_conn))
          → (check parse_ip contains g now conn).0 ≡ true
      back h = elim (Option-cases (lookup (get_ip conn) g.last_conn)) [
        | inl (last, e) ↦ ground (arith, h.1 last e)
        | inr e ↦ ground arith
      ]

  -- An admitted restricted connection is recorded with its time and counted, and its
  -- count of bad behaviour stays as it was: only a login clears it.
  pub check_admitted :
      (g : ConnGuard Net) (now : ℕ) (conn : Addr)
      → Restricted g conn
      → (check parse_ip contains g now conn).0 ≡ true
      → let ip = get_ip conn in
        let g' = (check parse_ip contains g now conn).1 in
        (g'.last_conn ≡ insert ip now g.last_conn)
        × (g'.conn_count ≡ insert ip (at g.conn_count ip + 1) g.conn_count)
        × (g'.misbehavior ≡ g.misbehavior)
        × (g'.whitelist ≡ g.whitelist)
        × (g'.min_interval ≡ g.min_interval)
  unfolding check
  check_admitted g now conn r h =
      (ground arith, ground arith, ground arith, ground arith, ground arith)

  pub same_whitelist :
      (g g' : ConnGuard Net) (ip : String)
      → g'.whitelist ≡ g.whitelist
      → is_whitelisted parse_ip contains g' ip ≡ is_whitelisted parse_ip contains g ip
  unfolding is_whitelisted
  same_whitelist g g' ip h = ap (λ (nets : List Net). on_list parse_ip contains nets ip) h

  -- After an admitted connection the next one from the same restricted address is refused until the
  -- minimal interval has passed.
  pub check_twice :
      (g : ConnGuard Net) (t u : ℕ) (conn : Addr)
      → Restricted g conn
      → (check parse_ip contains g t conn).0 ≡ true
      → u - t < g.min_interval
      → (check parse_ip contains (check parse_ip contains g t conn).1 u conn).0 ≡ false
  check_twice g t u conn r a h =
      let g' = (check parse_ip contains g t conn).1 in
      let ip = get_ip conn in
      let (e1, e2, e3, e4, e5) = check_admitted g t conn r a in
      let r' : Restricted g' conn = (same_whitelist g g' ip e4 ∙ r.0, r.1) in
      let last : lookup ip g'.last_conn ≡ some t =
        ap (λ (m : Dict String ℕ). lookup ip m) e1 ∙ lookup-insert_self ip t g.last_conn in
      elim (Bool-cases (check parse_ip contains g' u conn).0) [
        | inl p ↦ absurd (omega (arith, ((check_admits_iff g' u conn r').0 p).1 t last, e5))
        | inr p ↦ p
      ]
