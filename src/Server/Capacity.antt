-- ===== src/Server/Capacity.antt =====
-- How many connections an address can have open at once.
use nexus_link.Base.{ℕ, ◌≤◌, String, ◌≡◌, ap, ◌∙◌}
use nexus_link.Base.{Bool, false, Option, none, some, List, arith, if◌then◌else◌}
use nexus_link.Base.{Eq-nat, Eq-string, Eq-bytes, Eq-pair}
use nexus_link.Base.Dict.{lookup}
use nexus_link.Guard.State.{Addr, at, is_loopback, is_whitelisted, clear_misbehavior}
use nexus_link.Guard.Bound.{IsBounded, IsBounded-release, IsBounded-check, IsBounded-ban}
use nexus_link.Server.State.{Server}
use nexus_link.Server.Identity.{identify}
use nexus_link.Server.Session.{
  Live, World, First, closed_early, unreadable, wrong_type, unparsed, login, open_conn, clear_host,
  after_login, on_first, conclude, leave, Step, opens, speaks, controls, leaves, closes, Reach,
  starts, further,
}
use nexus_link.Server.Occupancy.{number, Reach-IsCounted}

module _ {Ip Net : Type 0} (parse_ip : String → Option Ip) (contains : Net → Ip → Bool)
    (matches : String → String → Bool) where
  IsBounded-after_login :
      (host : Option String) (r : Option String × Server) (w : World Net)
      → IsBounded w.guard
      → IsBounded (after_login parse_ip contains matches host r w).1.guard
  unfolding after_login clear_host clear_misbehavior
  IsBounded-after_login host (none, s) w h = h
  IsBounded-after_login none (some name, s) w h = h
  IsBounded-after_login (some host) (some name, s) w h = h

  IsBounded-on_first :
      (now : ℕ) (fault : Bool) (host : Option String) (addr : Addr) (first : First) (w : World Net)
      → IsBounded w.guard
      → IsBounded (on_first parse_ip contains matches now fault host addr first w).1.guard
  unfolding on_first
  IsBounded-on_first now fault host addr closed_early w h = h
  IsBounded-on_first now fault host addr unreadable w h =
      IsBounded-ban parse_ip contains w.guard now addr h
  IsBounded-on_first now fault host addr wrong_type w h =
      IsBounded-ban parse_ip contains w.guard now addr h
  IsBounded-on_first now fault host addr unparsed w h = h
  IsBounded-on_first now fault host addr (login token) w h =
      IsBounded-after_login host (identify fault token w.server) w h

  IsBounded-conclude :
      (before : List Live) (c : Live) (after : List Live) (id : String) (conn : ℕ)
      (r : Option String × World Net)
      → IsBounded r.1.guard
      → IsBounded (conclude parse_ip contains matches before c after id conn r).guard
  unfolding conclude
  IsBounded-conclude before c after id conn (none, w) h = IsBounded-release w.guard c.addr h
  IsBounded-conclude before c after id conn (some name, w) h = h

  IsBounded-Step :
      {w v : World Net} → Step parse_ip contains matches w v → IsBounded w.guard → IsBounded v.guard
  unfolding open_conn leave
  IsBounded-Step (opens w now addr) h = IsBounded-check parse_ip contains w.guard now addr h
  IsBounded-Step (speaks w before c after now fault host first id conn e n) h =
      IsBounded-conclude before c after id conn
        (on_first parse_ip contains matches now fault host c.addr first w)
        (IsBounded-on_first now fault host c.addr first w h)
  IsBounded-Step (controls w before c after m e n) h = h
  IsBounded-Step (leaves w before c after e n) h = IsBounded-release w.guard c.addr h
  IsBounded-Step (closes w name) h = h

  Reach-IsBounded : {w : World Net} → Reach parse_ip contains matches w → IsBounded w.guard
  unfolding lookup
  Reach-IsBounded (starts w l c p) ip k =
      let none_open : at w.guard.conn_count ip ≡ 0 = ap (λ m. at m ip) c in omega (arith, none_open)
  Reach-IsBounded (further r st) ip k = IsBounded-Step st (Reach-IsBounded r) ip k

  -- However connections are opened, log in or fail to, send messages and end, from a start without
  -- any: from an address that is neither on the whitelist nor one of this machine, at most as many
  -- connections are open at any time as the guard's maximum says.
  pub Reach-number :
      {w : World Net}
      → Reach parse_ip contains matches w
      → (ip : String) → is_whitelisted parse_ip contains w.guard ip ≡ false
      → is_loopback ip ≡ false
      → number ip w.live ≤ w.guard.max_conn
  Reach-number {w = w} r ip q l =
      let count : at w.guard.conn_count ip ≡ number ip w.live =
        Reach-IsCounted parse_ip contains matches r ip
        ∙ ap (λ b. if b then 0 else number ip w.live) q in
      omega (arith, count, Reach-IsBounded r ip l)
