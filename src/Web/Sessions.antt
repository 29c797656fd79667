-- ===== src/Web/Sessions.antt =====
-- Sessions of the panel: who passes, and what a login and a logout do.
use nexus_link.Base.{◌≢◌, ◌⊎◌, inl, inr, ◌==◌, false}
use nexus_link.Base.{ℕ, ◌+◌, ◌≤◌, String, ◌≡◌, refl, sym, ap, ◌∙◌, ◌↔◌, inl, inr}
use nexus_link.Base.{true, false, none, some, arith}
use nexus_link.Base.{Option-cases, ◌==◌, Eq-nat, Eq-string, Eq-bytes, Eq-pair, ==_refl}
use nexus_link.Base.Dict.{lookup, lookup-remove, lookup-insert_self}
use nexus_link.Web.State.{SessionInfo, LogEntry, WebServer, add_log}
use nexus_link.Web.Settings.{get_session_timeout}
use nexus_link.Web.Login.{
  Moment, start_session, handle_logout, unauthorized, session_expired, passes, PanelRequest,
  csrf_ok, use_session, auth_middleware, record_successful_login,
}
use nexus_link.Web.Csrf.{CarriesToken, IsExempt, differs, csrf_ok_passed, csrf_ok_holds}

abbrev Valid : ℕ → PanelRequest → WebServer → Type 0
Valid now r ws =
    (id : String) × (info : SessionInfo) × (r.cookie ≡ some id)
    × (lookup id ws.sessions ≡ some info)
    × (now ≤ info.expire_time)
    × (IsExempt r ws.security ⊎ CarriesToken r info)

with_session :
    (now : ℕ) (r : PanelRequest) (ws : WebServer) (id : String) (info : SessionInfo)
    → r.cookie ≡ some id
    → lookup id ws.sessions ≡ some info
    → auth_middleware now r ws ≡ use_session now r id info ws
unfolding auth_middleware
with_session now r ws id info c l = rw (c, auth_middleware) (rw (l, auth_middleware) refl)

use_session_passes :
    (now : ℕ) (r : PanelRequest) (ws : WebServer) (id : String) (info : SessionInfo)
    → ((use_session now r id info ws).0 ≡ passes)
      ↔ ((now ≤ info.expire_time) × (csrf_ok r info ws.security ≡ true))
unfolding use_session
use_session_passes now r ws id info =
    (λ h. (ground arith, ground arith), λ h. ground (arith, h.0, h.1))

no_session :
    (now : ℕ) (r : PanelRequest) (ws : WebServer) (id : String)
    → r.cookie ≡ some id
    → lookup id ws.sessions ≡ none
    → (auth_middleware now r ws).0 ≡ session_expired
unfolding auth_middleware
no_session now r ws id c l = rw (c, auth_middleware) (rw (l, auth_middleware) refl)

no_cookie :
    (now : ℕ) (r : PanelRequest) (ws : WebServer)
    → r.cookie ≡ none
    → (auth_middleware now r ws).0 ≡ unauthorized
unfolding auth_middleware
no_cookie now r ws c = rw (c, auth_middleware) refl

passes-Valid :
    (now : ℕ) (r : PanelRequest) (ws : WebServer)
    → (auth_middleware now r ws).0 ≡ passes
    → Valid now r ws
passes-Valid now r ws h = elim (Option-cases r.cookie) [
  | inr c ↦ ground (arith, no_cookie now r ws c, h)
  | inl (id, c) ↦ elim (Option-cases (lookup id ws.sessions)) [
    | inr l ↦ ground (arith, no_session now r ws id c l, h)
    | inl (info, l) ↦
        let (t, k) =
          (use_session_passes now r ws id info).0
            (ap (λ o. o.0) (sym (with_session now r ws id info c l)) ∙ h) in
        (id, info, c, l, t, csrf_ok_passed r info ws.security k)
  ]
]

-- A request passes exactly when its cookie names a session that has not expired and, if its method
-- is POST, PUT or DELETE and the protection is on, it carries the token of the session, which is
-- not empty: in its header or, if that is empty, in its form.
pub auth_middleware_passes_iff :
    (now : ℕ) (r : PanelRequest) (ws : WebServer)
    → ((auth_middleware now r ws).0 ≡ passes) ↔ (
        (id : String) × (info : SessionInfo) × (r.cookie ≡ some id)
        × (lookup id ws.sessions ≡ some info)
        × (now ≤ info.expire_time)
        × (((ws.security.csrf_protection ≡ false)
              ⊎ ((r.method ≢ "POST") × (r.method ≢ "PUT") × (r.method ≢ "DELETE")))
            ⊎ ((info.csrf_token ≢ "")
                × ((r.csrf_header ≡ info.csrf_token)
                    ⊎ ((r.csrf_header ≡ "") × (r.csrf_form ≡ info.csrf_token))))))
auth_middleware_passes_iff now r ws = (
  passes-Valid now r ws,
  λ (id, info, c, l, t, k).
      ap (λ o. o.0) (with_session now r ws id info c l)
      ∙ (use_session_passes now r ws id info).1 (t, csrf_ok_holds r info ws.security k),
)

sessions-add_log : (e : LogEntry) (ws : WebServer) → (add_log e ws).sessions ≡ ws.sessions
unfolding add_log
sessions-add_log e ws = ground arith

security-add_log : (e : LogEntry) (ws : WebServer) → (add_log e ws).security ≡ ws.security
unfolding add_log
security-add_log e ws = ground arith

-- The session that a login opens lets every request pass, until its timeout, that has its cookie
-- and its CSRF token, which is not empty, in the header.
pub auth_middleware-start_session :
    (m : Moment) (ip : String) (ws : WebServer) (now : ℕ) (r : PanelRequest)
    → r.cookie ≡ some m.session_id
    → r.csrf_header ≡ m.csrf
    → (m.csrf == "") ≡ false
    → now ≤ m.now + get_session_timeout ws.security
    → (auth_middleware now r (start_session m ip ws).1).0 ≡ passes
unfolding start_session record_successful_login
auth_middleware-start_session m ip ws now r c x n t =
    let info : SessionInfo = record {
      expire_time = m.now + get_session_timeout ws.security;
      csrf_token = m.csrf;
    } in
    (auth_middleware_passes_iff now r _).1 (
      m.session_id,
      info,
      c,
      rw (sessions-add_log) (lookup-insert_self m.session_id info ws.sessions),
      t,
      inr (differs m.csrf "" n, inl x),
    )

-- After a logout the cookie of the session does not pass any more, at any time.
pub auth_middleware-handle_logout :
    (stamp id : String) (ws : WebServer) (now : ℕ) (r : PanelRequest)
    → r.cookie ≡ some id
    → (auth_middleware now r (handle_logout stamp (some id) ws)).0 ≡ session_expired
unfolding handle_logout
auth_middleware-handle_logout stamp id ws now r c =
    no_session now r _ id c
      (rw (sessions-add_log) (lookup-remove id id ws.sessions ∙ rw (==_refl id) refl))
