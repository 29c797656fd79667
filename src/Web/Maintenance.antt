-- ===== src/Web/Maintenance.antt =====
-- pkg/web/server.go and pkg/web/security.go: cleanupSessions, and the handlers of the panel that
-- manage it: its password, locked addresses, the log and its events. What a handler answers is a
-- value; whether the settings file can be written is an argument.
use nexus_link.Base.{ℕ, zero, suc, String}
use nexus_link.Base.{
  Bool, true, false, not, ◌&&◌, Option, none, some, List, [], ◌∷◌, ltb, nat_eq, if◌then◌else◌,
}
use nexus_link.Base.{◌==◌, Eq-nat, Eq-string, Eq-bytes, Eq-pair}
use nexus_link.Base.{length, any}
use nexus_link.Base.Dict.{Dict, lookup, remove, keys}
use nexus_link.Base.Text.{contains}
use nexus_link.Store.Users.{append_text}
use nexus_link.Web.State.{SessionInfo, LoginAttempt, LogEntry, WebServer, add_log}
use nexus_link.Web.Login.{hash_password_with_salt}

-- the ranges of cleanupSessions over the two maps, in some order of their keys
unfoldable pub expire_session : ℕ → String → Dict String SessionInfo → Dict String SessionInfo
expire_session now id m = elim (lookup id m) [
  | some info ↦ if ltb info.expire_time now then remove id m else m
  | none ↦ m
]

unfoldable pub expire_sessions : ℕ → List String → Dict String SessionInfo → Dict String SessionInfo
unfolding expire_session
expire_sessions now [] m = m
expire_sessions now (id ∷ order) m = expire_sessions now order (expire_session now id m)

unfoldable pub expire_attempts :
    ℕ → List String → Dict String LoginAttempt → Dict String LoginAttempt
expire_attempts now [] m = m
expire_attempts now (ip ∷ order) m = expire_attempts now order (elim (lookup ip m) [
  | some attempt ↦ if ltb attempt.lock_until now && nat_eq attempt.count 0 then remove ip m else m
  | none ↦ m
])

-- a tick of cleanupSessions
unfoldable pub cleanup_sessions : ℕ → WebServer → WebServer
unfolding expire_sessions expire_attempts
cleanup_sessions now ws = record ws {
  sessions = expire_sessions now (keys ws.sessions) ws.sessions;
  failed_logins = expire_attempts now (keys ws.failed_logins) ws.failed_logins;
}

pub data PasswordAnswer : Type 0 where
  not_post bad_request wrong_current too_short unchanged not_saved changed : PasswordAnswer

module _ (sha : List ℕ → List ℕ) (hex : List ℕ → String) where
  -- handleChangePassword with its body: the current password and the new one
  unfoldable pub change_to :
      String → Bool → List ℕ → List ℕ → List ℕ → WebServer → PasswordAnswer × WebServer
  unfolding hash_password_with_salt add_log
  change_to stamp saved salt current next ws =
      let ws1 : WebServer = record ws {
        password_salt = salt;
        password_hash = hash_password_with_salt sha hex next salt;
      } in
      if not (hash_password_with_salt sha hex current ws.password_salt == ws.password_hash)
      then (wrong_current, ws)
      else if ltb (length next) 6
      then (too_short, ws)
      else if next == current
      then (unchanged, ws)
      else if not saved
      then (not_saved, ws1)
      else (
        changed,
        add_log (record { time = stamp; level = "warn"; message = "管理密码已修改，所有会话已失效" })
            (record ws1 { sessions = [] }),
      )

  unfoldable pub handle_change_password :
      String
      → Bool
      → Bool
      → List ℕ
      → Option (List ℕ × List ℕ)
      → WebServer
      → PasswordAnswer × WebServer
  unfolding change_to
  handle_change_password stamp is_post saved salt body ws =
      if not is_post then (not_post, ws) else elim body [
        | none ↦ (bad_request, ws)
        | some (current, next) ↦ change_to stamp saved salt current next ws
      ]

-- handleSecurityUnlock: whether the request is taken
unfoldable pub handle_security_unlock : String → Bool → Option String → WebServer → Bool × WebServer
unfolding add_log append_text
handle_security_unlock stamp is_post body ws = if not is_post then (false, ws) else elim body [
  | none ↦ (false, ws)
  | some ip ↦ if ip == "" then (false, ws) else (
    true,
    add_log (record { time = stamp; level = "info"; message = append_text "手动解锁 IP: " ip })
        (record ws { failed_logins = remove ip ws.failed_logins }),
  )
]

-- handleSecurityStatus: the number of sessions, and the addresses that are locked, with their ends
unfoldable pub locked_addresses : ℕ → Dict String LoginAttempt → List (String × ℕ)
locked_addresses now [] = []
locked_addresses now ((ip, attempt) ∷ m) =
    let rest = locked_addresses now m in
    if ltb now attempt.lock_until then (ip, attempt.lock_until) ∷ rest else rest

unfoldable pub handle_security_status : ℕ → WebServer → ℕ × List (String × ℕ)
unfolding locked_addresses
handle_security_status now ws = (length ws.sessions, locked_addresses now ws.failed_logins)

-- the log, newest first
unfoldable pub reversed_onto {ℓ} : {A : Type ℓ} → List A → List A → List A
reversed_onto acc [] = acc
reversed_onto acc (x ∷ xs) = reversed_onto (x ∷ acc) xs

-- handleLogs
unfoldable pub handle_logs : WebServer → List LogEntry
unfolding reversed_onto
handle_logs ws = reversed_onto [] ws.logs

abbrev pub keywords : List String
keywords = "登录" ∷ "锁定" ∷ "安全" ∷ "巡查" ∷ "登出" ∷ "密码" ∷ "IP" ∷ "失败" ∷ "CSRF" ∷ "会话" ∷ "解锁" ∷ "告警" ∷ []

abbrev pub is_security_entry : LogEntry → Bool
is_security_entry l = any (λ k. contains l.message k) keywords

-- the loop of handleSecurityEvents, from the newest entry, until 50 are found
unfoldable pub collect_events : ℕ → List LogEntry → List LogEntry
collect_events zero ls = []
collect_events (suc room) [] = []
collect_events (suc room) (l ∷ ls) =
    let hit = collect_events room ls in
    let miss = collect_events (suc room) ls in if is_security_entry l then l ∷ hit else miss

unfoldable pub handle_security_events : WebServer → List LogEntry
unfolding collect_events reversed_onto
handle_security_events ws = collect_events 50 (reversed_onto [] ws.logs)
