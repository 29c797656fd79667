-- ===== src/Web/Tests.antt =====
-- A panel with the default settings, and a database with a user and a client.
use nexus_link.Base.{nat_eq, if◌then◌else◌, ℕ, List, ◌==◌}
use nexus_link.Base.{◌+◌, ◌*◌, ◌≤◌, String, ◌≡◌, refl, ◌↔◌}
use nexus_link.Base.{true, false, none, some, [], ◌∷◌, ◌++◌, arith, ltb}
use nexus_link.Base.{Eq-nat, Eq-string, Eq-bytes, Eq-pair}
use nexus_link.Base.Dict.{lookup}
use nexus_link.Base.Tables.{find, Distinct}
use nexus_link.Base.Members.{Member, here}
use nexus_link.Store.Login.{token_of}
use nexus_link.Store.Tables.{ApiKey}
use nexus_link.Web.Tenancy.{name_of}
use nexus_link.Store.Tables.{Client, User, Store}
use nexus_link.Store.Tests.{empty}
use nexus_link.Store.Clients.{add_client_with_owner}
use nexus_link.Store.Users.{get_user_by_token, create_user, hash_password, append_text}
use nexus_link.Store.Keys.{has_api_key}
use nexus_link.Web.State.{minute, SessionInfo, LogEntry, WebServer}
use nexus_link.Web.Settings.{
  default_security_settings, corrected, corrected_range, get_session_timeout, get_rate_limit_max,
  get_rate_limit_lock_min,
}
use nexus_link.Web.Login.{
  is_ip_locked, record_failed_login, LoginAnswer, too_many_requests, LoginRequest, Moment,
  handle_login, start_session, handle_logout, session_expired, passes, PanelRequest,
  auth_middleware,
}
use nexus_link.Web.Access.{api_identity, can_access_client}
use nexus_link.Web.Journal.{add_logs, last_500, logs-add_logs}
use nexus_link.Web.Login.{hash_password_with_salt, rehash}
use nexus_link.Web.Attempts.{attempts, handle_login-attempts}
use nexus_link.Web.Lockout.{failures, failures_lock, handle_login_locked}
use nexus_link.Web.Sessions.{
  auth_middleware_passes_iff, auth_middleware-start_session, auth_middleware-handle_logout,
}
use nexus_link.Web.Tenancy.{can_access_client-api_identity, api_identity_nobody}
use nexus_link.Base.{◌<◌, ◌≢◌, ◌⊎◌, length, All}
use nexus_link.Web.Login.{check_password}
use nexus_link.Web.Maintenance.{cleanup_sessions, change_to}
use nexus_link.Web.Expiry.{auth_middleware-cleanup_sessions, auth_middleware-change_to}
use nexus_link.Web.Itoa.{itoa, number_from, IsDigit, itoa_returns}

abbrev with_bob : Store
with_bob = (create_user (λ t. t) false "t1" "salt" "tok" "bob" "pw" "user" empty).1

abbrev pub panel : WebServer
panel = record {
  password_hash = "hash";
  password_salt = [];
  sessions = [];
  failed_logins = [];
  logs = [];
  security = default_security_settings;
  api_keys = [];
  store = some with_bob;
}

abbrev moment : Moment
moment = record { now = 1_000; stamp = "t1"; session_id = "sid"; csrf = "csrf" }

-- a session of a year is cut to a day
corrected_range_test :
    let s = corrected (record default_security_settings { session_timeout_min = 525_600 }) in
    (minute ≤ get_session_timeout s)
    × (get_session_timeout s ≤ 1440 * minute)
    × (1 ≤ get_rate_limit_max s)
    × (get_rate_limit_max s ≤ 100)
    × (1 ≤ get_rate_limit_lock_min s)
    × (get_rate_limit_lock_min s ≤ 1440)
    × (corrected s ≡ s)
corrected_range_test =
    corrected_range (record default_security_settings { session_timeout_min = 525_600 })

abbrev entry : LogEntry
entry = record { time = "t"; level = "info"; message = "m" }

logs-add_logs_test :
    (add_logs (entry ∷ entry ∷ []) panel).logs ≡ last_500 (panel.logs ++ (entry ∷ entry ∷ []))
logs-add_logs_test = logs-add_logs (entry ∷ entry ∷ []) panel (omega arith)

failures_lock_test :
    (is_ip_locked 9 "10.0.0.9" (failures (1 ∷ 2 ∷ 3 ∷ 4 ∷ []) "10.0.0.9" panel)
      ≡ is_ip_locked 9 "10.0.0.9" panel)
    × (is_ip_locked 9 "10.0.0.9"
          (record_failed_login 5 "10.0.0.9" (failures (1 ∷ 2 ∷ 3 ∷ 4 ∷ []) "10.0.0.9" panel))
        ≡ ltb 9 (5 + get_rate_limit_lock_min default_security_settings * minute))
failures_lock_test =
    failures_lock (1 ∷ 2 ∷ 3 ∷ 4 ∷ []) 5 9 "10.0.0.9" panel
      (unfold lookup get_rate_limit_max default_security_settings in refl)

abbrev locked_panel : WebServer
locked_panel = record panel {
  failed_logins = ("10.0.0.9", record { count = 0; lock_until = 2_000 }) ∷ [];
}

abbrev attempt : LoginRequest
attempt = record { is_post = true; ip = "10.0.0.9"; password = some (1 ∷ []) }

abbrev refused : LoginAnswer × WebServer
refused = handle_login (λ d. d) (λ d. "hash") moment attempt locked_panel

handle_login_locked_test :
    (refused.0 ≡ too_many_requests) × (refused.1 ≡ record locked_panel { logs = refused.1.logs })
handle_login_locked_test =
    handle_login_locked (λ d. d) (λ d. "hash") moment attempt locked_panel refl
      (unfold is_ip_locked lookup in refl)

abbrev request : PanelRequest
request = record { cookie = some "sid"; method = "POST"; csrf_header = "csrf"; csrf_form = "" }

auth_middleware_passes_iff_example : ((auth_middleware 5 request panel).0 ≡ passes) ↔ (
    (id : String) × (info : SessionInfo) × (request.cookie ≡ some id)
    × (lookup id panel.sessions ≡ some info)
    × (5 ≤ info.expire_time)
    × (((panel.security.csrf_protection ≡ false)
          ⊎ ((request.method ≢ "POST") × (request.method ≢ "PUT") × (request.method ≢ "DELETE")))
        ⊎ ((info.csrf_token ≢ "")
            × ((request.csrf_header ≡ info.csrf_token)
                ⊎ ((request.csrf_header ≡ "") × (request.csrf_form ≡ info.csrf_token))))))
auth_middleware_passes_iff_example = auth_middleware_passes_iff 5 request panel

auth_middleware-start_session_test :
    (auth_middleware 2_000 request (start_session moment "10.0.0.9" panel).1).0 ≡ passes
auth_middleware-start_session_test =
    auth_middleware-start_session moment "10.0.0.9" panel 2_000 request refl refl refl
      (unfold get_session_timeout default_security_settings in omega arith)

auth_middleware-handle_logout_test :
    (auth_middleware 2_000 request
      (handle_logout "t2" (some "sid") (start_session moment "10.0.0.9" panel).1)).0
    ≡ session_expired
auth_middleware-handle_logout_test =
    auth_middleware-handle_logout "t2" "sid" (start_session moment "10.0.0.9" panel).1 2_000 request
      refl

abbrev bob : User
bob = record {
  id = 1;
  username = "bob";
  password_hash = "saltpw";
  password_salt = "salt";
  role = "user";
  api_token = "tok";
  status = "active";
  created_at = "t1";
  updated_at = "t1";
}

-- the database with a client of bob
abbrev with_edge : Store
with_edge = (add_client_with_owner false "t2" "edge" "secret" 0 0 "bob" with_bob).1

abbrev edge_panel : WebServer
edge_panel = record panel { store = some with_edge }

bob_stored : Member bob with_edge.users
unfolding create_user hash_password append_text find add_client_with_owner
bob_stored = here refl

tokens-Distinct : Distinct token_of with_edge.users
unfolding create_user find add_client_with_owner
tokens-Distinct = (tt, tt)

no_keys : (k : ApiKey) → Member k with_edge.api_keys → k.key ≢ "tok"
unfolding create_user find add_client_with_owner
no_keys k m = elim m [ ]

names-Distinct : Distinct name_of with_edge.clients
unfolding create_user find add_client_with_owner
names-Distinct = (tt, tt)

can_access_client-api_identity_example :
    (api_identity true false "tok" edge_panel
      ≡ some (record { admin = false; username = "bob"; role = "user" }))
    × ((can_access_client false
            (record { admin = false; username = "bob"; role = "user" })
            "edge"
            edge_panel
          ≡ true)
        ↔ ((c : Client) × Member c with_edge.clients × (c.name ≡ "edge") × (c.owner ≡ "bob")))
can_access_client-api_identity_example =
    can_access_client-api_identity true "edge" bob with_edge edge_panel (λ e. cc) refl bob_stored
      tokens-Distinct names-Distinct no_keys (unfold lookup in refl)

api_identity_nobody_test : api_identity false false "guess" panel ≡ none
api_identity_nobody_test =
    api_identity_nobody "guess" with_bob panel refl (unfold has_api_key create_user find in refl)
      (unfold get_user_by_token create_user find in refl) (unfold lookup in refl)

abbrev guess : LoginRequest
guess = record { is_post = true; ip = "10.0.0.9"; password = some (1 ∷ []) }

abbrev at_time : ℕ → Moment
at_time t = record moment { now = t }

abbrev guessing : List Moment
guessing = at_time 1 ∷ at_time 2 ∷ at_time 3 ∷ at_time 4 ∷ []

-- a hash that tells the first byte of a digest
abbrev first_byte : List ℕ → String
first_byte d = elim d [ [] ↦ "" | x ∷ xs ↦ if nat_eq x 7 then "hash" else "other" ]

guess_fails :
    (hash_password_with_salt (λ d. d) first_byte (1 ∷ []) panel.password_salt
      == panel.password_hash)
    ≡ false
unfolding hash_password_with_salt rehash
guess_fails = refl

handle_login-attempts_example :
    (handle_login
      (λ d. d)
      first_byte
      (at_time 9)
      (record guess { password = some (7 ∷ []) })
      (attempts (λ d. d) first_byte (guessing ++ (at_time 5 ∷ [])) guess panel)).0
    ≡ too_many_requests
handle_login-attempts_example =
    handle_login-attempts (λ d. d) first_byte guessing (at_time 5) (at_time 9) guess (some (7 ∷ []))
      panel (refl, ((1 ∷ []), refl, guess_fails)) (unfold lookup in refl)
      (unfold lookup get_rate_limit_max default_security_settings in refl)
      (unfold get_rate_limit_lock_min default_security_settings in omega arith)

itoa_returns_example :
    (ds : List ℕ) × (itoa 1024 ≡ some ds)
    × (number_from 0 ds ≡ 1024)
    × (0 < length ds)
    × (length ds ≤ 19)
    × All IsDigit ds
itoa_returns_example = itoa_returns 1024 (omega arith)

abbrev logged_in : WebServer
logged_in = (start_session moment "10.0.0.9" panel).1

auth_middleware-cleanup_sessions_example :
    (auth_middleware 9_000 request (cleanup_sessions 8_000 logged_in)).0
    ≡ (auth_middleware 9_000 request logged_in).0
auth_middleware-cleanup_sessions_example =
    auth_middleware-cleanup_sessions 8_000 9_000 request logged_in (omega arith)

abbrev with_password : WebServer
with_password = record logged_in { password_hash = "other" }

auth_middleware-change_to_example :
    let ws' =
      (change_to
        (λ d. d)
        first_byte
        "t3"
        true
        (5 ∷ [])
        (1 ∷ [])
        (1 ∷ 2 ∷ 3 ∷ 4 ∷ 5 ∷ 6 ∷ [])
        with_password).1 in
    ((auth_middleware 3_000 request ws').0 ≢ passes)
    × (check_password (λ d. d) first_byte moment "10.0.0.9" (1 ∷ 2 ∷ 3 ∷ 4 ∷ 5 ∷ 6 ∷ []) ws'
        ≡ start_session moment "10.0.0.9" ws')
auth_middleware-change_to_example =
    auth_middleware-change_to (λ d. d) first_byte "t3" true (5 ∷ []) (1 ∷ [])
      (1 ∷ 2 ∷ 3 ∷ 4 ∷ 5 ∷ 6 ∷ []) 3_000 request moment "10.0.0.9" with_password
      (unfold change_to hash_password_with_salt rehash start_session in refl)
