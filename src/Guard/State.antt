-- ===== src/Guard/State.antt =====
-- pkg/security/connguard.go. Every method holds the mutex from its first access of the maps to its
-- last, so that it is one step on the state. The clock is an argument, in nanoseconds; Go's monotonic
-- clock does not run back. Package net is a parameter: parsing of addresses and ranges, and
-- membership in a range. Connection counts are plain numbers: they count connections that are open.
use nexus_link.Base.{ℕ, ◌+◌, ◌-◌, ◌*◌, String}
use nexus_link.Base.{
  Bool, true, false, ◌||◌, Option, none, some, List, [], ◌∷◌, ltb, leb, nat_eq, if◌then◌else◌,
}
use nexus_link.Base.{◌==◌, Eq-nat, Eq-string, Eq-bytes}
use nexus_link.Base.{length, keep, any}
use nexus_link.Base.Dict.{Dict, get_or, lookup, insert, remove}
use Prim.Native.Char.{code}

abbrev pub second : ℕ
second = 1_000_000_000

pub record ConnGuard (Net : Type 0) : Type 0 where
  pub conn_count : Dict String ℕ
  pub last_conn : Dict String ℕ
  pub blacklist : Dict String ℕ
  pub misbehavior : Dict String ℕ
  pub whitelist : List Net
  pub max_conn : ℕ
  pub min_interval : ℕ
  pub ban_duration : ℕ
  pub ban_threshold : ℕ

unfoldable pub new_conn_guard : {Net : Type 0} → ConnGuard Net
new_conn_guard = record {
  conn_count = [];
  last_conn = [];
  blacklist = [];
  misbehavior = [];
  whitelist = [];
  max_conn = 200;
  min_interval = 1 * second;
  ban_duration = 60 * second;
  ban_threshold = 3;
}

-- conn.RemoteAddr(): a *net.TCPAddr, by the text of its IP, or another address, by its text
pub data Addr : Type 0 where
  tcp : String → Addr
  other : String → Addr

-- the text before the last `:`, if there is one
before_last_colon : String → Option String
before_last_colon String.[] = none
before_last_colon (String.◌∷◌ c s) = elim (before_last_colon s) [
  | some p ↦ some (String.◌∷◌ c p)
  | none ↦ if nat_eq (code c) b':' then some "" else none
]

unfoldable pub get_ip : Addr → String
unfolding before_last_colon
get_ip (tcp ip) = ip
get_ip (other a) = get_or (before_last_colon a) a

unfoldable pub is_loopback : String → Bool
is_loopback ip = ip == "127.0.0.1" || (ip == "::1" || ip == "localhost")

-- m[k] of a map of counts: 0 for a missing key
abbrev pub at : Dict String ℕ → String → ℕ
at m k = get_or (lookup k m) 0

module _ {Net : Type 0} where
  unfoldable pub ban : ConnGuard Net → ℕ → String → ConnGuard Net
  ban g now ip = record g { blacklist = insert ip now g.blacklist }

  -- g.misbehavior[ip]++, and the ban when the threshold is reached
  unfoldable pub misbehave : ConnGuard Net → ℕ → String → ConnGuard Net
  unfolding ban
  misbehave g now ip =
      let n = at g.misbehavior ip + 1 in
      let counted = record g { misbehavior = insert ip n g.misbehavior } in
      if leb g.ban_threshold n
      then record (ban counted now ip) { misbehavior = insert ip 0 counted.misbehavior }
      else counted

  -- the last steps of Check: the number of connections, and the record of an admitted one
  unfoldable pub check_count : ConnGuard Net → ℕ → String → Bool × ConnGuard Net
  unfolding misbehave
  check_count g now ip =
      if leb g.max_conn (at g.conn_count ip) then (false, misbehave g now ip) else (
        true,
        record g {
          last_conn = insert ip now g.last_conn;
          conn_count = insert ip (at g.conn_count ip + 1) g.conn_count;
        },
      )

  -- the second step of Check: the interval since the last admitted connection
  unfoldable pub check_rate : ConnGuard Net → ℕ → String → Bool × ConnGuard Net
  unfolding misbehave check_count
  check_rate g now ip = elim (lookup ip g.last_conn) [
    | some last ↦
        if ltb (now - last) g.min_interval
        then (false, misbehave g now ip)
        else check_count g now ip
    | none ↦ check_count g now ip
  ]

  -- the first step of Check behind the lock: the blacklist
  unfoldable pub check_banned : ConnGuard Net → ℕ → String → Bool × ConnGuard Net
  unfolding check_rate
  check_banned g now ip = elim (lookup ip g.blacklist) [
    | some banned ↦
        if ltb (now - banned) g.ban_duration
        then (false, g)
        else check_rate (record g { blacklist = remove ip g.blacklist }) now ip
    | none ↦ check_rate g now ip
  ]

module _ {Ip Net : Type 0} (parse_ip : String → Option Ip) (contains : Net → Ip → Bool) where
  -- the loop of isWhitelisted, over the whitelist of the guard
  unfoldable pub on_list : List Net → String → Bool
  on_list nets text =
      if nat_eq (length nets) 0
      then false
      else elim (parse_ip text) [ none ↦ false | some ip ↦ any (λ n. contains n ip) nets ]

  unfoldable pub is_whitelisted : ConnGuard Net → String → Bool
  is_whitelisted g text = on_list g.whitelist text

  unfoldable pub check : ConnGuard Net → ℕ → Addr → Bool × ConnGuard Net
  unfolding check_banned
  check g now conn =
      let ip = get_ip conn in
      if is_whitelisted g ip
      then (true, g)
      else if is_loopback ip
      then (
        true,
        record g {
          last_conn = insert ip now g.last_conn;
          conn_count = insert ip (at g.conn_count ip + 1) g.conn_count;
        },
      )
      else check_banned g now ip

  unfoldable pub ban_for_bad_behavior : ConnGuard Net → ℕ → Addr → ConnGuard Net
  unfolding misbehave
  ban_for_bad_behavior g now conn =
      let ip = get_ip conn in if is_whitelisted g ip then g else misbehave g now ip

  unfoldable pub ban_ip : ConnGuard Net → ℕ → String → ConnGuard Net
  unfolding ban
  ban_ip g now ip = if is_whitelisted g ip then g else ban g now ip

module _ {Net : Type 0} where
  unfoldable pub release : ConnGuard Net → Addr → ConnGuard Net
  release g conn =
      let ip = get_ip conn in
      if ltb 0 (at g.conn_count ip)
      then record g { conn_count = insert ip (at g.conn_count ip - 1) g.conn_count }
      else g

  unfoldable pub clear_misbehavior : ConnGuard Net → String → ConnGuard Net
  clear_misbehavior g ip = record g { misbehavior = remove ip g.misbehavior }

  unfoldable pub is_banned : ConnGuard Net → ℕ → String → Bool
  is_banned g now ip = elim (lookup ip g.blacklist) [
    | some banned ↦ ltb (now - banned) g.ban_duration
    | none ↦ false
  ]

-- the sum of the values of a map
unfoldable pub total : Dict String ℕ → ℕ
total [] = 0
total ((k, n) ∷ m) = n + total m

module _ {Net : Type 0} where
  -- GetStats: what has expired leaves the blacklist; the counts of banned and of open connections
  unfoldable pub get_stats : ConnGuard Net → ℕ → (ℕ × ℕ) × ConnGuard Net
  unfolding total
  get_stats g now =
      let live = keep (λ e. ltb (now - e.1) g.ban_duration) g.blacklist in
      ((length live, total g.conn_count), record g { blacklist = live })
