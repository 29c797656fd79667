-- ===== src/Guard/Tally.antt =====
-- What the methods of the guard do to the counts of open connections, address by address.
use nexus_link.Base.{ℕ, ◌+◌, ◌-◌, String, ◌≡◌, refl, ap, ◌∙◌, inl, inr}
use nexus_link.Base.{Bool, true, false, ◌&&◌, Option, arith, ltb, leb, if◌then◌else◌}
use nexus_link.Base.{Bool-cases, Option-cases, ◌==◌, Eq-nat, Eq-string, Eq-bytes, Eq-pair}
use nexus_link.Base.Dict.{lookup, insert, remove}
use nexus_link.Guard.State.{
  ConnGuard, Addr, get_ip, is_loopback, at, misbehave, check_count, check_rate, check_banned, check,
  is_whitelisted, ban_for_bad_behavior, release,
}
use nexus_link.Guard.Counts.{at-insert, count-misbehave}

-- the whitelist stays, and a connection that is admitted is counted
pub record Tallies {Net : Type 0} (g : ConnGuard Net) (ip : String) (r : Bool × ConnGuard Net)
    : Type 0 where
  pub same_list : r.1.whitelist ≡ g.whitelist
  pub tally :
      (j : String)
      → at r.1.conn_count j ≡ (if r.0 && ip == j then at g.conn_count j + 1 else at g.conn_count j)

whitelist-misbehave :
    {Net : Type 0} (g : ConnGuard Net) (now : ℕ) (ip : String)
    → (misbehave g now ip).whitelist ≡ g.whitelist
unfolding misbehave
whitelist-misbehave g now ip = ground arith

Tallies-misbehave :
    {Net : Type 0} (g : ConnGuard Net) (now : ℕ) (ip : String)
    → Tallies g ip (false, misbehave g now ip)
Tallies-misbehave g now ip = record {
  same_list = whitelist-misbehave g now ip;
  tally = λ j. ap (λ m. at m j) (count-misbehave g now ip).0;
}

Tallies-admit :
    {Net : Type 0} (g : ConnGuard Net) (now : ℕ) (ip : String)
    → Tallies g ip (
      true,
      record g {
        last_conn = insert ip now g.last_conn;
        conn_count = insert ip (at g.conn_count ip + 1) g.conn_count;
      },
    )
Tallies-admit g now ip = record {
  same_list = refl;
  tally = λ j. at-insert ip j (at g.conn_count ip + 1) g.conn_count ∙ elim (Bool-cases (ip == j)) [
    | inl q ↦
        let same : ip ≡ j = (Eq-string.same_iff ip j).0 q in
        rw q (ap (λ k. at g.conn_count k + 1) same)
    | inr q ↦ rw q refl
  ];
}

Tallies-check_count :
    {Net : Type 0} (g : ConnGuard Net) (now : ℕ) (ip : String) → Tallies g ip (check_count g now ip)
unfolding check_count
Tallies-check_count g now ip = elim (Bool-cases (leb g.max_conn (at g.conn_count ip))) [
  | inl q ↦ rw (q, check_count) (Tallies-misbehave g now ip)
  | inr q ↦ rw (q, check_count) (Tallies-admit g now ip)
]

Tallies-check_rate :
    {Net : Type 0} (g : ConnGuard Net) (now : ℕ) (ip : String) → Tallies g ip (check_rate g now ip)
unfolding check_rate
Tallies-check_rate g now ip = elim (Option-cases (lookup ip g.last_conn)) [
  | inr n ↦ rw (n, check_rate) (Tallies-check_count g now ip)
  | inl (last, e) ↦
      rw (e, check_rate)
        (elim (Bool-cases (ltb (now - last) g.min_interval)) [
          | inl q ↦ rw (q, check_rate) (Tallies-misbehave g now ip)
          | inr q ↦ rw (q, check_rate) (Tallies-check_count g now ip)
        ])
]

Tallies-check_banned :
    {Net : Type 0} (g : ConnGuard Net) (now : ℕ) (ip : String)
    → Tallies g ip (check_banned g now ip)
unfolding check_banned
Tallies-check_banned g now ip = elim (Option-cases (lookup ip g.blacklist)) [
  | inr n ↦ rw (n, check_banned) (Tallies-check_rate g now ip)
  | inl (t, e) ↦
      rw (e, check_banned)
        (elim (Bool-cases (ltb (now - t) g.ban_duration)) [
          | inl q ↦ rw (q, check_banned) (record { same_list = refl; tally = λ j. refl })
          | inr q ↦
              let r = Tallies-check_rate (record g { blacklist = remove ip g.blacklist }) now ip in
              rw (q, check_banned) (record { same_list = r.same_list; tally = r.tally })
        ])
]

module _ {Ip Net : Type 0} (parse_ip : String → Option Ip) (contains : Net → Ip → Bool) where
  -- an address on the whitelist is let in and not counted
  pub check_listed :
      (g : ConnGuard Net) (now : ℕ) (conn : Addr)
      → is_whitelisted parse_ip contains g (get_ip conn) ≡ true
      → check parse_ip contains g now conn ≡ (true, g)
  unfolding check
  check_listed g now conn h = rw (h, check) refl

  pub Tallies-check :
      (g : ConnGuard Net) (now : ℕ) (conn : Addr)
      → is_whitelisted parse_ip contains g (get_ip conn) ≡ false
      → Tallies g (get_ip conn) (check parse_ip contains g now conn)
  unfolding check
  Tallies-check g now conn h =
      rw (h, check)
        (elim (Bool-cases (is_loopback (get_ip conn))) [
          | inl q ↦ rw (q, check) (Tallies-admit g now (get_ip conn))
          | inr q ↦ rw (q, check) (Tallies-check_banned g now (get_ip conn))
        ])

  -- an offence changes no count
  pub ban-tally :
      (g : ConnGuard Net) (now : ℕ) (conn : Addr)
      → let g' = ban_for_bad_behavior parse_ip contains g now conn in
        (g'.conn_count ≡ g.conn_count) × (g'.whitelist ≡ g.whitelist)
  unfolding ban_for_bad_behavior
  ban-tally g now conn = elim (Bool-cases (is_whitelisted parse_ip contains g (get_ip conn))) [
    | inl q ↦ rw (q, ban_for_bad_behavior) (refl, refl)
    | inr q ↦
        rw (q, ban_for_bad_behavior)
          ((count-misbehave g now (get_ip conn)).0, whitelist-misbehave g now (get_ip conn))
  ]

pub release-tally :
    {Net : Type 0} (g : ConnGuard Net) (conn : Addr) (j : String)
    → at (release g conn).conn_count j
      ≡ (if get_ip conn == j then at g.conn_count j - 1 else at g.conn_count j)
unfolding release
release-tally g conn j =
    let ip = get_ip conn in
    elim (Bool-cases (ltb 0 (at g.conn_count ip))) [
      | inl q ↦
          rw (q, release)
            (at-insert ip j (at g.conn_count ip - 1) g.conn_count ∙ elim (Bool-cases (ip == j)) [
              | inl s ↦ rw s (ap (λ k. at g.conn_count k - 1) ((Eq-string.same_iff ip j).0 s))
              | inr s ↦ rw s refl
            ])
      | inr q ↦
          rw (q, release)
            (elim (Bool-cases (ip == j)) [
              | inl s ↦
                  let same : at g.conn_count ip ≡ at g.conn_count j =
                    ap (at g.conn_count) ((Eq-string.same_iff ip j).0 s) in
                  rw s (ground (arith, q, same))
              | inr s ↦ rw s refl
            ])
    ]

pub release_whitelist :
    {Net : Type 0} (g : ConnGuard Net) (conn : Addr) → (release g conn).whitelist ≡ g.whitelist
unfolding release
release_whitelist g conn = ground arith
