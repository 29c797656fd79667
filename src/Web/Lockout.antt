-- ===== src/Web/Lockout.antt =====
-- The lock of an address after failed logins.
use nexus_link.Base.{ℕ, ◌+◌, ◌*◌, ◌<◌, String, ◌≡◌, refl, sym, ap, ◌∙◌}
use nexus_link.Base.{true, false, List, [], ◌∷◌, arith, ltb, leb, if◌then◌else◌}
use nexus_link.Base.{Eq-nat, Eq-string, Eq-bytes, Eq-pair}
use nexus_link.Base.{length}
use nexus_link.Base.Dict.{get_or, lookup, lookup-insert_self}
use nexus_link.Web.State.{minute, LoginAttempt, LogEntry, WebServer, add_log}
use nexus_link.Web.Settings.{get_rate_limit_max, get_rate_limit_lock_min}
use nexus_link.Web.Login.{
  is_ip_locked, record_failed_login, too_many_requests, LoginRequest, Moment, handle_login,
}

-- failed logins of one address at some times
unfoldable pub failures : List ℕ → String → WebServer → WebServer
failures [] ip ws = ws
failures (t ∷ ts) ip ws = failures ts ip (record_failed_login t ip ws)

abbrev pub attempt_of : String → WebServer → LoginAttempt
attempt_of ip ws = get_or (lookup ip ws.failed_logins) (record { count = 0; lock_until = 0 })

pub attempt-failed :
    (t : ℕ) (ip : String) (ws : WebServer)
    → attempt_of ip (record_failed_login t ip ws) ≡ (
        if leb (get_rate_limit_max ws.security) ((attempt_of ip ws).count + 1)
        then record { count = 0; lock_until = t + get_rate_limit_lock_min ws.security * minute }
        else record {
          count = (attempt_of ip ws).count + 1;
          lock_until = (attempt_of ip ws).lock_until;
        })
unfolding record_failed_login
attempt-failed t ip ws =
    ap (λ o. get_or o (record { count = 0; lock_until = 0 }))
      (lookup-insert_self ip _ ws.failed_logins)

pub below :
    (t : ℕ) (ip : String) (ws : WebServer)
    → (attempt_of ip ws).count + 1 < get_rate_limit_max ws.security
    → attempt_of ip (record_failed_login t ip ws)
      ≡ record { count = (attempt_of ip ws).count + 1; lock_until = (attempt_of ip ws).lock_until }
below t ip ws h =
    let q : leb (get_rate_limit_max ws.security) ((attempt_of ip ws).count + 1) ≡ false =
      ground arith in
    attempt-failed t ip ws ∙ rw q refl

security-failures :
    (ts : List ℕ) (ip : String) (ws : WebServer) → (failures ts ip ws).security ≡ ws.security
unfolding failures record_failed_login
security-failures [] ip ws = refl
security-failures (t ∷ ts) ip ws = security-failures ts ip (record_failed_login t ip ws)

counts :
    (ts : List ℕ) (ip : String) (ws : WebServer)
    → (attempt_of ip ws).count + length ts < get_rate_limit_max ws.security
    → ((attempt_of ip (failures ts ip ws)).count ≡ (attempt_of ip ws).count + length ts)
      × ((attempt_of ip (failures ts ip ws)).lock_until ≡ (attempt_of ip ws).lock_until)
unfolding failures
counts [] ip ws h = (omega arith, refl)
counts (t ∷ ts) ip ws h =
    let ws1 = record_failed_login t ip ws in
    let same : ws1.security ≡ ws.security = security-failures (t ∷ []) ip ws in
    let first = below t ip ws (omega arith) in
    let rest = counts ts ip ws1 (rw (first, same) (omega arith)) in
    let c = ap (λ (a : LoginAttempt). a.count) first in
    let l = ap (λ (a : LoginAttempt). a.lock_until) first in (omega (arith, rest.0, c), rest.1 ∙ l)

-- a failure that reaches the limit
pub reached :
    (t : ℕ) (ip : String) (ws : WebServer)
    → leb (get_rate_limit_max ws.security) ((attempt_of ip ws).count + 1) ≡ true
    → (attempt_of ip (record_failed_login t ip ws)).lock_until
      ≡ t + get_rate_limit_lock_min ws.security * minute
reached t ip ws full =
    let locked : LoginAttempt = record {
      count = 0;
      lock_until = t + get_rate_limit_lock_min ws.security * minute;
    } in
    let counted : LoginAttempt = record {
      count = (attempt_of ip ws).count + 1;
      lock_until = (attempt_of ip ws).lock_until;
    } in
    ap (λ (a : LoginAttempt). a.lock_until)
      (attempt-failed t ip ws ∙ ap (λ b. if b then locked else counted) full)

pub locked-attempt :
    (now : ℕ) (ip : String) (ws : WebServer)
    → is_ip_locked now ip ws ≡ ltb now (attempt_of ip ws).lock_until
unfolding is_ip_locked
locked-attempt now ip ws = ground arith

-- The failed login that reaches the limit locks its address for the set time from then on; those before
-- it change nothing about the lock.
pub failures_lock :
    (ts : List ℕ) (t now : ℕ) (ip : String) (ws : WebServer)
    → (attempt_of ip ws).count + length ts + 1 ≡ get_rate_limit_max ws.security
    → (is_ip_locked now ip (failures ts ip ws) ≡ is_ip_locked now ip ws)
      × (is_ip_locked now ip (record_failed_login t ip (failures ts ip ws))
          ≡ ltb now (t + get_rate_limit_lock_min ws.security * minute))
failures_lock ts t now ip ws h =
    let ws1 = failures ts ip ws in
    let (n, same) = counts ts ip ws (omega arith) in
    let full : leb (get_rate_limit_max ws1.security) ((attempt_of ip ws1).count + 1) ≡ true =
      rw (security-failures ts ip ws, n) (ground arith) in
    (
      locked-attempt now ip ws1 ∙ rw same (sym (locked-attempt now ip ws)),
      locked-attempt now ip (record_failed_login t ip ws1)
          ∙ ap (λ u. ltb now u) (reached t ip ws1 full)
          ∙ rw (security-failures ts ip ws) refl,
    )

same_but_logs :
    (e : LogEntry) (ws : WebServer) → add_log e ws ≡ record ws { logs = (add_log e ws).logs }
unfolding add_log
same_but_logs e ws = ground arith

-- While an address is locked no login from it is answered but by a refusal, whatever the password, and
-- all that changes is the log.
pub handle_login_locked :
    (sha : List ℕ → List ℕ) (hex : List ℕ → String) (m : Moment) (r : LoginRequest) (ws : WebServer)
    → r.is_post ≡ true
    → is_ip_locked m.now r.ip ws ≡ true
    → let (answer, ws') = handle_login sha hex m r ws in
      (answer ≡ too_many_requests) × (ws' ≡ record ws { logs = ws'.logs })
unfolding handle_login
handle_login_locked sha hex m r ws p l =
    rw (p, handle_login) (rw (l, handle_login) (refl, same_but_logs _ ws))
