-- ===== src/Server/Occupancy.antt =====
-- How many connections the guard counts, however the connections of any number of clients interleave.
use nexus_link.Base.{ℕ, suc, ◌+◌, String, ◌≡◌, refl, sym, ap, ◌∙◌, inl, inr}
use nexus_link.Base.{
  Bool, true, false, Option, none, some, List, [], ◌∷◌, ◌++◌, arith, if◌then◌else◌,
}
use nexus_link.Base.{Bool-cases, ◌==◌, Eq-nat, Eq-string, Eq-bytes, Eq-pair}
use nexus_link.Base.Dict.{lookup}
use mathlib.Core.Path.{subst}
use nexus_link.Guard.State.{
  ConnGuard, Addr, get_ip, at, check, clear_misbehavior, release, is_whitelisted,
}
use nexus_link.Guard.Admission.{same_whitelist}
use nexus_link.Guard.Tally.{
  Tallies, check_listed, Tallies-check, ban-tally, release-tally, release_whitelist,
}
use nexus_link.Server.State.{Server}
use nexus_link.Server.Identity.{identify}
use nexus_link.Server.Session.{
  Live, World, First, closed_early, unreadable, wrong_type, unparsed, login, open_conn, clear_host,
  after_login, on_first, conclude, leave, Step, opens, speaks, controls, leaves, closes, Reach,
  starts, further,
}

-- the connections from an address
unfoldable pub number : String → List Live → ℕ
number ip [] = 0
number ip (c ∷ cs) = let rest = number ip cs in if get_ip c.addr == ip then suc rest else rest

number-append :
    (ip : String) (xs ys : List Live) → number ip (xs ++ ys) ≡ number ip xs + number ip ys
unfolding number
number-append ip [] ys = omega arith
number-append ip (c ∷ xs) ys = ground (arith, number-append ip xs ys)

-- one connection out of many
number-split :
    (ip : String) (before : List Live) (c : Live) (after : List Live)
    → number ip (before ++ (c ∷ after)) ≡ (
        if get_ip c.addr == ip
        then suc (number ip (before ++ after))
        else number ip (before ++ after))
unfolding number
number-split ip before c after =
    ground (arith, number-append ip before (c ∷ after), number-append ip before after)

module _ {Ip Net : Type 0} (parse_ip : String → Option Ip) (contains : Net → Ip → Bool)
    (matches : String → String → Bool) where
  -- what the guard counts for an address whose connections are `n`
  abbrev expected : ConnGuard Net → String → ℕ → ℕ
  expected g ip n = if is_whitelisted parse_ip contains g ip then 0 else n

  abbrev IsCounted : ConnGuard Net → List Live → Type 0
  IsCounted g live = (ip : String) → at g.conn_count ip ≡ expected g ip (number ip live)

  -- of a guard, the counts and the whitelist matter
  IsCounted-same :
      (g g' : ConnGuard Net) (live : List Live)
      → (g'.conn_count ≡ g.conn_count) × (g'.whitelist ≡ g.whitelist)
      → IsCounted g live
      → IsCounted g' live
  IsCounted-same g g' live (c, l) h ip =
      ap (λ m. at m ip) c
      ∙ h ip
      ∙ ap (λ b. if b then 0 else number ip live) (sym (same_whitelist parse_ip contains g g' ip l))

  -- an address on the whitelist is let in
  IsCounted-listed :
      (addr : Addr) (g : ConnGuard Net) (live : List Live) (c : Live)
      → c.addr ≡ addr
      → is_whitelisted parse_ip contains g (get_ip addr) ≡ true
      → IsCounted g live
      → IsCounted g (c ∷ live)
  unfolding number
  IsCounted-listed addr g live c e q h ip = elim (Bool-cases (get_ip c.addr == ip)) [
    | inr s ↦ h ip ∙ ap (expected g ip) (sym (rw s refl))
    | inl s ↦
        let same : get_ip addr ≡ ip =
          ap get_ip (sym e) ∙ (Eq-string.same_iff (get_ip c.addr) ip).0 s in
        let on : is_whitelisted parse_ip contains g ip ≡ true =
          ap (is_whitelisted parse_ip contains g) (sym same) ∙ q in
        ground (arith, on, h ip)
  ]

  -- another one is counted if it is let in
  IsCounted-plain :
      (addr : Addr) (g : ConnGuard Net) (live : List Live) (c : Live) (b : Bool)
      (g' : ConnGuard Net)
      → c.addr ≡ addr
      → is_whitelisted parse_ip contains g (get_ip addr) ≡ false
      → Tallies g (get_ip addr) (b, g')
      → IsCounted g live
      → IsCounted g' (if b then c ∷ live else live)
  unfolding number
  IsCounted-plain addr g live c false g' e q t h ip =
      ground (arith, h ip, t.tally ip, same_whitelist parse_ip contains g g' ip t.same_list)
  IsCounted-plain addr g live c true g' e q t h ip =
      let list = same_whitelist parse_ip contains g g' ip t.same_list in
      let one : at g'.conn_count ip
          ≡ (if get_ip c.addr == ip then at g.conn_count ip + 1 else at g.conn_count ip) =
        t.tally ip
        ∙ ap (λ a. if get_ip a == ip then at g.conn_count ip + 1 else at g.conn_count ip) (sym e) in
      elim (Bool-cases (get_ip c.addr == ip)) [
        | inr s ↦ ground (arith, one, s, list, h ip)
        | inl s ↦
            let same : get_ip addr ≡ ip =
              ap get_ip (sym e) ∙ (Eq-string.same_iff (get_ip c.addr) ip).0 s in
            let off : is_whitelisted parse_ip contains g ip ≡ false =
              ap (is_whitelisted parse_ip contains g) (sym same) ∙ q in
            ground (arith, one, s, list, off, h ip)
      ]

  IsCounted-open :
      (now : ℕ) (addr : Addr) (w : World Net)
      → IsCounted w.guard w.live
      → let w' = open_conn parse_ip contains matches now addr w in IsCounted w'.guard w'.live
  unfolding open_conn
  IsCounted-open now addr w h =
      let g = w.guard in
      let r = check parse_ip contains g now addr in
      let c : Live = record { id = ""; addr = addr; logged_in = false } in
      elim (Bool-cases (is_whitelisted parse_ip contains g (get_ip addr))) [
        | inl q ↦
            subst (λ (x : Bool × ConnGuard Net). IsCounted x.1 (if x.0 then c ∷ w.live else w.live))
              (sym (check_listed parse_ip contains g now addr q))
              (IsCounted-listed addr g w.live c refl q h)
        | inr q ↦
            IsCounted-plain addr g w.live c r.0 r.1 refl q
              (Tallies-check parse_ip contains g now addr q) h
      ]

  IsCounted-release :
      (before : List Live) (c : Live) (after : List Live) (g : ConnGuard Net)
      → IsCounted g (before ++ (c ∷ after))
      → IsCounted (release g c.addr) (before ++ after)
  IsCounted-release before c after g h ip = ground (
    arith,
    h ip,
    release-tally g c.addr ip,
    number-split ip before c after,
    same_whitelist parse_ip contains g (release g c.addr) ip (release_whitelist g c.addr),
  )

  login-tally :
      (host : Option String) (r : Option String × Server) (w : World Net)
      → let w' = (after_login parse_ip contains matches host r w).1 in
        ((w'.guard.conn_count ≡ w.guard.conn_count) × (w'.guard.whitelist ≡ w.guard.whitelist))
        × (w'.live ≡ w.live)
  unfolding after_login clear_host clear_misbehavior
  login-tally host (none, s) w = ((refl, refl), refl)
  login-tally none (some name, s) w = ((refl, refl), refl)
  login-tally (some h) (some name, s) w = ((refl, refl), refl)

  zero_expected : (g : ConnGuard Net) (ip : String) → expected g ip 0 ≡ 0
  zero_expected g ip = elim (Bool-cases (is_whitelisted parse_ip contains g ip)) [
    | inl q ↦ rw q refl
    | inr q ↦ rw q refl
  ]

  -- a first message changes neither
  first-tally :
      (now : ℕ) (fault : Bool) (host : Option String) (addr : Addr) (first : First) (w : World Net)
      → let w' = (on_first parse_ip contains matches now fault host addr first w).1 in
        ((w'.guard.conn_count ≡ w.guard.conn_count) × (w'.guard.whitelist ≡ w.guard.whitelist))
        × (w'.live ≡ w.live)
  unfolding on_first
  first-tally now fault host addr closed_early w = ((refl, refl), refl)
  first-tally now fault host addr unreadable w =
      (ban-tally parse_ip contains w.guard now addr, refl)
  first-tally now fault host addr wrong_type w =
      (ban-tally parse_ip contains w.guard now addr, refl)
  first-tally now fault host addr unparsed w = ((refl, refl), refl)
  first-tally now fault host addr (login token) w =
      login-tally host (identify fault token w.server) w

  IsCounted-conclude :
      (before : List Live) (c : Live) (after : List Live) (id : String) (conn : ℕ)
      (r : Option String × World Net)
      → IsCounted r.1.guard (before ++ (c ∷ after))
      → let w' = conclude parse_ip contains matches before c after id conn r in
        IsCounted w'.guard w'.live
  unfolding conclude
  IsCounted-conclude before c after id conn (none, w) h ip =
      IsCounted-release before c after w.guard h ip
  IsCounted-conclude before c after id conn (some name, w) h ip =
      let named : Live = record c { id = id; logged_in = true } in
      h ip
      ∙ ap (expected w.guard ip)
          (number-split ip before c after ∙ sym (number-split ip before named after))

  IsCounted-Step :
      {w v : World Net}
      → Step parse_ip contains matches w v
      → IsCounted w.guard w.live
      → IsCounted v.guard v.live
  unfolding leave
  IsCounted-Step (opens w now addr) h = IsCounted-open now addr w h
  IsCounted-Step (speaks w before c after now fault host first id conn e n) h =
      let r = on_first parse_ip contains matches now fault host c.addr first w in
      IsCounted-conclude before c after id conn r (
        IsCounted-same w.guard r.1.guard (before ++ (c ∷ after))
          (first-tally now fault host c.addr first w).0 (subst (IsCounted w.guard) e h))
  IsCounted-Step (controls w before c after m e n) h = h
  IsCounted-Step (leaves w before c after e n) h =
      IsCounted-release before c after w.guard (subst (IsCounted w.guard) e h)
  IsCounted-Step (closes w name) h = h

  -- However connections are opened, log in or fail to, send messages and end, the guard counts for each
  -- address exactly the connections from it that are open, and none for an address on the whitelist.
  pub Reach-IsCounted :
      {w : World Net}
      → Reach parse_ip contains matches w
      → (ip : String)
      → at w.guard.conn_count ip
        ≡ (if is_whitelisted parse_ip contains w.guard ip then 0 else number ip w.live)
  unfolding number lookup
  Reach-IsCounted (starts w l c p) ip =
      ap (λ m. at m ip) c
      ∙ sym (ap (λ x. expected w.guard ip (number ip x)) l ∙ zero_expected w.guard ip)
  Reach-IsCounted (further r st) ip = IsCounted-Step st (Reach-IsCounted r) ip
