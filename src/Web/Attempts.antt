-- ===== src/Web/Attempts.antt =====
-- Logins with a wrong password, as the panel handles them, and the lock that they lead to.
use nexus_link.Base.{ℕ, ◌+◌, ◌*◌, ◌<◌, String, ◌≡◌, refl, ap, ◌∙◌}
use nexus_link.Base.{true, false, Option, some, List, [], ◌∷◌, ◌++◌, arith, leb, lt→ltb}
use nexus_link.Base.{◌==◌, Eq-nat, Eq-string, Eq-bytes, Eq-pair}
use nexus_link.Base.{length}
use nexus_link.Store.Users.{append_text}
use nexus_link.Web.State.{minute, LoginAttempt, LogEntry, WebServer, add_log}
use nexus_link.Web.Settings.{get_rate_limit_max, get_rate_limit_lock_min}
use nexus_link.Web.Login.{
  is_ip_locked, record_failed_login, hash_password_with_salt, too_many_requests, LoginRequest,
  Moment, check_password, handle_login,
}
use nexus_link.Web.Lockout.{attempt_of, below, locked-attempt, reached}

-- what a log entry leaves alone
record Unlogged (ws ws' : WebServer) : Type 0 where
  same_hash : ws'.password_hash ≡ ws.password_hash
  same_salt : ws'.password_salt ≡ ws.password_salt
  same_security : ws'.security ≡ ws.security

Unlogged-failed :
    (e : LogEntry) (now : ℕ) (ip : String) (ws : WebServer)
    → Unlogged ws (add_log e (record_failed_login now ip ws))
unfolding add_log record_failed_login
Unlogged-failed e now ip ws = record {
  same_hash = ground arith;
  same_salt = ground arith;
  same_security = ground arith;
}

failed_logins-add_log :
    (e : LogEntry) (ws : WebServer) → (add_log e ws).failed_logins ≡ ws.failed_logins
unfolding add_log
failed_logins-add_log e ws = ground arith

module _ (sha : List ℕ → List ℕ) (hex : List ℕ → String) where
  -- one request after the other, each at its moment
  unfoldable pub attempts : List Moment → LoginRequest → WebServer → WebServer
  attempts [] r ws = ws
  attempts (m ∷ ms) r ws = attempts ms r (handle_login sha hex m r ws).1

  -- a request with a password that is not that of the panel
  abbrev pub IsWrong : LoginRequest → WebServer → Type 0
  IsWrong r ws =
      (r.is_post ≡ true)
      × ((p : List ℕ) × (r.password ≡ some p)
          × ((hash_password_with_salt sha hex p ws.password_salt == ws.password_hash) ≡ false))

  -- such a request from an address that is not locked is a failed login, and is logged
  wrong_step :
      (m : Moment) (r : LoginRequest) (ws : WebServer)
      → IsWrong r ws
      → is_ip_locked m.now r.ip ws ≡ false
      → (e : LogEntry) × ((handle_login sha hex m r ws).1
          ≡ add_log e (record_failed_login m.now r.ip ws))
  unfolding handle_login check_password
  wrong_step m r ws (post, (p, body, wrong)) free =
      let e : LogEntry = record {
        time = m.stamp;
        level = "warn";
        message = append_text "登录失败（密码错误）: " r.ip;
      } in
      (
        e,
        rw (post, handle_login)
            (rw (free, handle_login) (rw (body, handle_login) (rw (wrong, check_password) refl))),
      )

  -- the state after a wrong password
  record Failed (m : Moment) (r : LoginRequest) (ws : WebServer) : Type 0 where
    kept : Unlogged ws (handle_login sha hex m r ws).1
    attempt :
        attempt_of r.ip (handle_login sha hex m r ws).1
        ≡ attempt_of r.ip (record_failed_login m.now r.ip ws)

  Failed-wrong :
      (m : Moment) (r : LoginRequest) (ws : WebServer)
      → IsWrong r ws
      → (attempt_of r.ip ws).lock_until ≡ 0
      → Failed m r ws
  Failed-wrong m r ws w z =
      let free : is_ip_locked m.now r.ip ws ≡ false =
        locked-attempt m.now r.ip ws ∙ rw z (ground arith) in
      let (e, is) = wrong_step m r ws w free in
      record {
        kept = rw is (Unlogged-failed e m.now r.ip ws);
        attempt = rw is (rw (failed_logins-add_log e (record_failed_login m.now r.ip ws)) refl);
      }

  IsWrong-same :
      (r : LoginRequest) (ws ws' : WebServer) → Unlogged ws ws' → IsWrong r ws → IsWrong r ws'
  IsWrong-same r ws ws' u (post, (p, body, wrong)) =
      (post, (p, body, rw (u.same_hash, u.same_salt) wrong))

  -- fewer wrong passwords than the limit are counted, and lock nothing
  record Counted (ms : List Moment) (r : LoginRequest) (ws : WebServer) : Type 0 where
    unlogged : Unlogged ws (attempts ms r ws)
    count : (attempt_of r.ip (attempts ms r ws)).count ≡ (attempt_of r.ip ws).count + length ms
    unlocked : (attempt_of r.ip (attempts ms r ws)).lock_until ≡ 0

  Counted-attempts :
      (ms : List Moment) (r : LoginRequest) (ws : WebServer)
      → IsWrong r ws
      → (attempt_of r.ip ws).lock_until ≡ 0
      → (attempt_of r.ip ws).count + length ms < get_rate_limit_max ws.security
      → Counted ms r ws
  unfolding attempts
  Counted-attempts [] r ws w z h = record {
    unlogged = record { same_hash = refl; same_salt = refl; same_security = refl };
    count = omega arith;
    unlocked = z;
  }
  Counted-attempts (m ∷ ms) r ws w z h =
      let f = Failed-wrong m r ws w z in
      let ws1 = (handle_login sha hex m r ws).1 in
      let a1 = f.attempt ∙ below m.now r.ip ws (omega arith) in
      let c1 = ap (λ (a : LoginAttempt). a.count) a1 in
      let z1 = ap (λ (a : LoginAttempt). a.lock_until) a1 ∙ z in
      let rest =
        Counted-attempts ms r ws1 (IsWrong-same r ws ws1 f.kept w) z1
          (rw (f.kept.same_security) (omega (arith, c1))) in
      record {
        unlogged = record {
          same_hash = rest.unlogged.same_hash ∙ f.kept.same_hash;
          same_salt = rest.unlogged.same_salt ∙ f.kept.same_salt;
          same_security = rest.unlogged.same_security ∙ f.kept.same_security;
        };
        count = omega (arith, rest.count, c1);
        unlocked = rest.unlocked;
      }

  attempts-append :
      (ms : List Moment) (last : Moment) (r : LoginRequest) (ws : WebServer)
      → attempts (ms ++ (last ∷ [])) r ws ≡ (handle_login sha hex last r (attempts ms r ws)).1
  unfolding attempts
  attempts-append [] last r ws = refl
  attempts-append (m ∷ ms) last r ws = attempts-append ms last r _

  locked_login :
      (m : Moment) (r : LoginRequest) (ws : WebServer)
      → r.is_post ≡ true
      → is_ip_locked m.now r.ip ws ≡ true
      → (handle_login sha hex m r ws).0 ≡ too_many_requests
  unfolding handle_login
  locked_login m r ws p l = rw (p, handle_login) (rw (l, handle_login) refl)

  -- From an address that was never locked, the wrong password that reaches the limit shuts the address
  -- out: until the lock ends every login from it is refused, also with the right password.
  pub handle_login-attempts :
      (ms : List Moment) (last m : Moment) (r : LoginRequest) (password : Option (List ℕ))
      (ws : WebServer)
      → IsWrong r ws
      → (attempt_of r.ip ws).lock_until ≡ 0
      → (attempt_of r.ip ws).count + length ms + 1 ≡ get_rate_limit_max ws.security
      → m.now < last.now + get_rate_limit_lock_min ws.security * minute
      → (handle_login sha hex m
          (record r { password = password })
          (attempts (ms ++ (last ∷ [])) r ws)).0
        ≡ too_many_requests
  handle_login-attempts ms last m r password ws w z n t =
      let ws1 = attempts ms r ws in
      let c = Counted-attempts ms r ws w z (omega arith) in
      let w1 = IsWrong-same r ws ws1 c.unlogged w in
      let f = Failed-wrong last r ws1 w1 c.unlocked in
      let ws2 = (handle_login sha hex last r ws1).1 in
      let full : leb (get_rate_limit_max ws1.security) ((attempt_of r.ip ws1).count + 1) ≡ true =
        rw (c.unlogged.same_security, c.count) (ground arith) in
      let until = reached last.now r.ip ws1 full in
      let locked : is_ip_locked m.now r.ip ws2 ≡ true =
        locked-attempt m.now r.ip ws2
        ∙ rw (f.attempt, until, c.unlogged.same_security) (lt→ltb _ _ t) in
      rw (attempts-append ms last r ws)
        (locked_login m (record r { password = password }) ws2 w.0 locked)
