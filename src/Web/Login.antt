-- ===== src/Web/Login.antt =====
-- pkg/web/server.go: handleLogin, handleLogout, the lock of an address, and authMiddleware. sha256 and
-- the hexadecimal text of a digest are parameters; session ids and CSRF tokens, which are random, are
-- arguments, and so are the clock and its text for the log.
use nexus_link.Base.{ℕ, zero, suc, ◌+◌, ◌*◌, String}
use nexus_link.Base.{
  Bool, false, not, ◌&&◌, ◌||◌, Option, none, some, List, ◌++◌, ltb, leb, if◌then◌else◌,
}
use nexus_link.Base.{◌==◌, Eq-nat, Eq-string, Eq-bytes, Eq-pair}
use nexus_link.Base.Dict.{get_or, lookup, insert, remove}
use nexus_link.Store.Users.{append_text}
use nexus_link.Web.State.{minute, SecuritySettings, SessionInfo, LoginAttempt, WebServer, add_log}
use nexus_link.Web.Settings.{get_session_timeout, get_rate_limit_max, get_rate_limit_lock_min}

unfoldable pub is_ip_locked : ℕ → String → WebServer → Bool
is_ip_locked now ip ws = elim (lookup ip ws.failed_logins) [
  | none ↦ false
  | some attempt ↦ ltb now attempt.lock_until
]

unfoldable pub record_failed_login : ℕ → String → WebServer → WebServer
record_failed_login now ip ws =
    let attempt = get_or (lookup ip ws.failed_logins) (record { count = 0; lock_until = 0 }) in
    let n = attempt.count + 1 in
    let next : LoginAttempt =
      if leb (get_rate_limit_max ws.security) n
      then record { count = 0; lock_until = now + get_rate_limit_lock_min ws.security * minute }
      else record { count = n; lock_until = attempt.lock_until } in
    record ws { failed_logins = insert ip next ws.failed_logins }

unfoldable pub record_successful_login : String → WebServer → WebServer
record_successful_login ip ws = record ws { failed_logins = remove ip ws.failed_logins }

-- the loop over the digest
unfoldable pub rehash : ℕ → (List ℕ → List ℕ) → List ℕ → List ℕ
rehash zero sha d = d
rehash (suc n) sha d = rehash n sha (sha d)

module _ (sha : List ℕ → List ℕ) (hex : List ℕ → String) where
  unfoldable pub hash_password_with_salt : List ℕ → List ℕ → String
  unfolding rehash
  hash_password_with_salt password salt = hex (rehash 1000 sha (sha (salt ++ password ++ salt)))

pub data LoginAnswer : Type 0 where
  method_not_allowed too_many_requests invalid_request wrong_password : LoginAnswer
  logged_in : String → LoginAnswer

-- what a login request carries: whether it is a POST, the address of the client, and the password of
-- its body, if that can be read
pub record LoginRequest : Type 0 where
  pub is_post : Bool
  pub ip : String
  pub password : Option (List ℕ)

-- what is random or is read off the clock
pub record Moment : Type 0 where
  pub now : ℕ
  pub stamp : String
  pub session_id : String
  pub csrf : String

abbrev pub note : Moment → String → String → String → WebServer → WebServer
note m level text ip =
    add_log (record { time = m.stamp; level = level; message = append_text text ip })

-- handleLogin once the password is right
unfoldable pub start_session : Moment → String → WebServer → LoginAnswer × WebServer
unfolding record_successful_login add_log append_text
start_session m ip ws =
    let ws1 = record_successful_login ip ws in
    let info : SessionInfo = record {
      expire_time = m.now + get_session_timeout ws.security;
      csrf_token = m.csrf;
    } in
    (
      logged_in m.csrf,
      note m "info" "管理员登录成功: " ip
          (record ws1 { sessions = insert m.session_id info ws1.sessions }),
    )

module _ (sha : List ℕ → List ℕ) (hex : List ℕ → String) where
  unfoldable pub check_password : Moment → String → List ℕ → WebServer → LoginAnswer × WebServer
  unfolding hash_password_with_salt record_failed_login start_session add_log append_text
  check_password m ip password ws =
      if hash_password_with_salt sha hex password ws.password_salt == ws.password_hash
      then start_session m ip ws
      else (wrong_password, note m "warn" "登录失败（密码错误）: " ip (record_failed_login m.now ip ws))

  unfoldable pub handle_login : Moment → LoginRequest → WebServer → LoginAnswer × WebServer
  unfolding is_ip_locked check_password add_log append_text
  handle_login m r ws =
      if not r.is_post
      then (method_not_allowed, ws)
      else if is_ip_locked m.now r.ip ws
      then (too_many_requests, note m "warn" "登录尝试被拒绝（IP已锁定）: " r.ip ws)
      else elim r.password [
        | none ↦ (invalid_request, ws)
        | some password ↦ check_password m r.ip password ws
      ]

unfoldable pub handle_logout : String → Option String → WebServer → WebServer
unfolding add_log
handle_logout stamp cookie ws =
    let ws1 : WebServer = elim cookie [
      | some id ↦ record ws { sessions = remove id ws.sessions }
      | none ↦ ws
    ] in
    add_log (record { time = stamp; level = "info"; message = "管理员登出" }) ws1

pub data Admission : Type 0 where
  unauthorized session_expired bad_csrf passes : Admission

-- the cookie, whether the method changes state, the token of the header and that of the form
pub record PanelRequest : Type 0 where
  pub cookie : Option String
  pub method : String
  pub csrf_header : String
  pub csrf_form : String

unfoldable pub csrf_ok : PanelRequest → SessionInfo → SecuritySettings → Bool
csrf_ok r info sec =
    let sent = if r.csrf_header == "" then r.csrf_form else r.csrf_header in
    not ((r.method == "POST" || r.method == "PUT" || r.method == "DELETE") && sec.csrf_protection)
    || not (sent == "") && sent == info.csrf_token

-- authMiddleware with the session of the cookie: it is extended by 30 minutes
unfoldable pub use_session :
    ℕ → PanelRequest → String → SessionInfo → WebServer → Admission × WebServer
unfolding csrf_ok
use_session now r id info ws =
    if ltb info.expire_time now
    then (session_expired, record ws { sessions = remove id ws.sessions })
    else let extended : SessionInfo = record info { expire_time = now + 30 * minute } in
      (
        if csrf_ok r info ws.security then passes else bad_csrf,
        record ws { sessions = insert id extended ws.sessions },
      )

unfoldable pub auth_middleware : ℕ → PanelRequest → WebServer → Admission × WebServer
unfolding use_session
auth_middleware now r ws = elim r.cookie [
  | none ↦ (unauthorized, ws)
  | some id ↦ elim (lookup id ws.sessions) [
    | none ↦ (session_expired, ws)
    | some info ↦ use_session now r id info ws
  ]
]
