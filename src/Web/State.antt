-- ===== src/Web/State.antt =====
-- pkg/web/server.go and pkg/web/security.go: WebServer, its settings, sessions, failed logins and log.
-- Times are in nanoseconds; a setting below zero is treated like zero everywhere, and is zero here.
use nexus_link.Base.{ℕ, ◌-◌, String}
use nexus_link.Base.{Bool, Option, List, [], ◌∷◌, ◌++◌, ltb, if◌then◌else◌}
use nexus_link.Base.{Eq-nat, Eq-string, Eq-bytes, Eq-pair}
use nexus_link.Base.{length, drop}
use nexus_link.Base.Dict.{Dict}
use nexus_link.Store.Tables.{Store}

abbrev pub minute : ℕ
minute = 60_000_000_000

pub record SecuritySettings : Type 0 where
  pub session_timeout_min : ℕ
  pub rate_limit_max : ℕ
  pub rate_limit_lock_min : ℕ
  pub csrf_protection : Bool
  pub security_headers : Bool
  pub http_only_cookie : Bool
  pub same_site_cookie : Bool
  pub custom_csp : String

pub record SessionInfo : Type 0 where
  pub expire_time : ℕ
  pub csrf_token : String

pub record LoginAttempt : Type 0 where
  pub count : ℕ
  pub lock_until : ℕ

pub record LogEntry : Type 0 where
  pub time : String
  pub level : String
  pub message : String

pub record WebServer : Type 0 where
  pub password_hash : String
  pub password_salt : List ℕ
  pub sessions : Dict String SessionInfo
  pub failed_logins : Dict String LoginAttempt
  pub logs : List LogEntry
  pub security : SecuritySettings
  pub api_keys : Dict String Bool
  pub store : Option Store

-- AddLog
unfoldable pub add_log : LogEntry → WebServer → WebServer
add_log entry ws =
    let logs = ws.logs ++ (entry ∷ []) in
    if ltb 500 (length logs)
    then record ws { logs = drop (length logs - 500) logs }
    else record ws { logs = logs }
