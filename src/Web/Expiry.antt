-- ===== src/Web/Expiry.antt =====
-- What maintenance of the panel means for its sessions.
use nexus_link.Base.{ℕ, ◌≤◌, ◌<◌, String, ◌≡◌, refl, sym, ap, ◌∙◌, ◌≢◌, ◌⊎◌, inl, inr}
use nexus_link.Base.{
  Bool, true, Option, none, some, List, [], ◌∷◌, arith, ltb, if◌then◌else◌, ltb→lt, lt→ltb,
}
use nexus_link.Base.{Bool-cases, Option-cases, ◌==◌, Eq-nat, Eq-string, Eq-bytes, Eq-pair}
use nexus_link.Base.Dict.{Dict, lookup, remove, lookup-remove, lookup-remove_other, keys}
use nexus_link.Web.State.{SessionInfo, WebServer, add_log}
use nexus_link.Web.Login.{
  hash_password_with_salt, start_session, check_password, Moment, Admission, session_expired,
  passes, unauthorized, PanelRequest, csrf_ok, bad_csrf, use_session, auth_middleware,
}
use nexus_link.Web.Maintenance.{
  expire_session, expire_sessions, cleanup_sessions, changed, change_to,
}

-- what a lookup finds is as it was, or it had expired and is gone
abbrev Expired : ℕ → String → Dict String SessionInfo → Dict String SessionInfo → Type 0
Expired now id m m' =
    (lookup id m' ≡ lookup id m)
    ⊎ ((info : SessionInfo) × (lookup id m ≡ some info)
        × (info.expire_time < now)
        × (lookup id m' ≡ none))

Expired-expire_session :
    (now : ℕ) (k id : String) (m : Dict String SessionInfo)
    → Expired now id m (expire_session now k m)
unfolding expire_session
Expired-expire_session now k id m = elim (Option-cases (lookup k m)) [
  | inr n ↦ inl (ap (lookup id) (rw (n, expire_session) refl))
  | inl (info, f) ↦ elim (Bool-cases (ltb info.expire_time now)) [
    | inr l ↦ inl (ap (lookup id) (rw (f, l, expire_session) refl))
    | inl l ↦
        let gone : expire_session now k m ≡ remove k m = rw (f, l, expire_session) refl in
        elim (Bool-cases (k == id)) [
          | inr q ↦ inl (ap (lookup id) gone ∙ lookup-remove_other k id m q)
          | inl q ↦
              let same : k ≡ id = (Eq-string.same_iff k id).0 q in
              inr (
                info,
                ap (λ j. lookup j m) (sym same) ∙ f,
                ltb→lt info.expire_time now l,
                ap (lookup id) gone ∙ lookup-remove k id m ∙ rw q refl,
              )
        ]
  ]
]

Expired-expire_sessions :
    (now : ℕ) (order : List String) (id : String) (m : Dict String SessionInfo)
    → Expired now id m (expire_sessions now order m)
unfolding expire_sessions
Expired-expire_sessions now [] id m = inl refl
Expired-expire_sessions now (k ∷ order) id m =
    let later = Expired-expire_sessions now order id (expire_session now k m) in
    elim (Expired-expire_session now k id m) [
      | inl same ↦ elim later [
        | inl same' ↦ inl (same' ∙ same)
        | inr (info, f, l, n) ↦ inr (info, sym same ∙ f, l, n)
      ]
      | inr (info, f, l, n) ↦ elim later [
        | inl same' ↦ inr (info, f, l, same' ∙ n)
        | inr (info', f', l', n') ↦ inr (info, f, l, n')
      ]
    ]

-- what the middleware says to a request with a cookie goes by what the lookup finds
abbrev admission_of : ℕ → PanelRequest → String → WebServer → Option SessionInfo → Admission
admission_of now r id ws none = session_expired
admission_of now r id ws (some info) = (use_session now r id info ws).0

no_cookie :
    (now : ℕ) (r : PanelRequest) (ws ws' : WebServer)
    → r.cookie ≡ none
    → (auth_middleware now r ws').0 ≡ (auth_middleware now r ws).0
unfolding auth_middleware
no_cookie now r ws ws' n = rw (n, auth_middleware) refl

auth_middleware_admission :
    (now : ℕ) (r : PanelRequest) (id : String) (ws : WebServer) (o : Option SessionInfo)
    → r.cookie ≡ some id
    → lookup id ws.sessions ≡ o
    → (auth_middleware now r ws).0 ≡ admission_of now r id ws o
unfolding auth_middleware
auth_middleware_admission now r id ws none c l =
    rw (c, auth_middleware) (rw (l, auth_middleware) refl)
auth_middleware_admission now r id ws (some info) c l =
    rw (c, auth_middleware) (rw (l, auth_middleware) refl)

-- of the panel, only the settings matter
admission_of-security :
    (now : ℕ) (r : PanelRequest) (id : String) (ws ws' : WebServer) (o : Option SessionInfo)
    → ws'.security ≡ ws.security
    → admission_of now r id ws' o ≡ admission_of now r id ws o
unfolding use_session
admission_of-security now r id ws ws' none h = refl
admission_of-security now r id ws ws' (some info) h = elim (Bool-cases (ltb info.expire_time now)) [
  | inl q ↦ rw (q, admission_of, use_session) refl
  | inr q ↦
      rw (q, admission_of, use_session)
        (ap (λ sec. if csrf_ok r info sec then passes else bad_csrf) h)
]

admission_expired :
    (now : ℕ) (r : PanelRequest) (id : String) (ws : WebServer) (info : SessionInfo)
    → info.expire_time < now
    → admission_of now r id ws (some info) ≡ session_expired
unfolding use_session
admission_expired now r id ws info h =
    let q : ltb info.expire_time now ≡ true = lt→ltb info.expire_time now h in
    rw (q, admission_of, use_session) refl

-- A tick of cleanupSessions changes the admission of no request that comes later.
pub auth_middleware-cleanup_sessions :
    (now later : ℕ) (r : PanelRequest) (ws : WebServer)
    → now ≤ later
    → (auth_middleware later r (cleanup_sessions now ws)).0 ≡ (auth_middleware later r ws).0
unfolding cleanup_sessions
auth_middleware-cleanup_sessions now later r ws h = elim (Option-cases r.cookie) [
  | inr n ↦ no_cookie later r ws _ n
  | inl (id, n) ↦
      let ws' = cleanup_sessions now ws in
      let before = auth_middleware_admission later r id ws (lookup id ws.sessions) n refl in
      let after = auth_middleware_admission later r id ws' (lookup id ws'.sessions) n refl in
      let secure = admission_of-security later r id ws ws' (lookup id ws.sessions) refl in
      elim (Expired-expire_sessions now (keys ws.sessions) id ws.sessions) [
        | inl same ↦ after ∙ ap (admission_of later r id ws') same ∙ secure ∙ sym before
        | inr (info, f, l, g) ↦
            after
            ∙ ap (admission_of later r id ws') g
            ∙ sym (admission_expired later r id ws info (omega (arith, l, h)))
            ∙ ap (admission_of later r id ws) (sym f)
            ∙ sym before
      ]
]

-- what a changed password leaves
change_to_saved :
    (sha : List ℕ → List ℕ) (hex : List ℕ → String) (stamp : String) (saved : Bool)
    (salt current next : List ℕ) (ws : WebServer)
    → (change_to sha hex stamp saved salt current next ws).0 ≡ changed
    → let ws' = (change_to sha hex stamp saved salt current next ws).1 in
      (ws'.sessions ≡ [])
      × (ws'.password_salt ≡ salt)
      × (ws'.password_hash ≡ hash_password_with_salt sha hex next salt)
unfolding change_to add_log
change_to_saved sha hex stamp saved salt current next ws h =
    (ground (arith, h), ground (arith, h), ground (arith, h))

login_right :
    (sha : List ℕ → List ℕ) (hex : List ℕ → String) (m : Moment) (ip : String) (password : List ℕ)
    (ws : WebServer)
    → hash_password_with_salt sha hex password ws.password_salt ≡ ws.password_hash
    → check_password sha hex m ip password ws ≡ start_session m ip ws
unfolding check_password
login_right sha hex m ip password ws h =
    let q : (hash_password_with_salt sha hex password ws.password_salt == ws.password_hash) ≡ true =
      (Eq-string.same_iff _ ws.password_hash).1 h in
    rw (q, check_password) refl

nobody_passes :
    (now : ℕ) (r : PanelRequest) (ws : WebServer)
    → ws.sessions ≡ []
    → (auth_middleware now r ws).0 ≢ passes
unfolding lookup auth_middleware
nobody_passes now r ws e p = elim (Option-cases r.cookie) [
  | inr n ↦
      let told : (auth_middleware now r ws).0 ≡ unauthorized = rw (n, auth_middleware) refl in
      absurd (ground (arith, sym told ∙ p))
  | inl (id, n) ↦
      let told = auth_middleware_admission now r id ws none n (ap (lookup id) e) in
      absurd (ground (arith, sym told ∙ p))
]

-- A password that is changed, and saved, ends every session: no request passes without a new login, and
-- the new password is accepted by a login from an address that is not locked.
pub auth_middleware-change_to :
    (sha : List ℕ → List ℕ) (hex : List ℕ → String) (stamp : String) (saved : Bool)
    (salt current next : List ℕ) (now : ℕ) (r : PanelRequest) (m : Moment) (ip : String)
    (ws : WebServer)
    → (change_to sha hex stamp saved salt current next ws).0 ≡ changed
    → let ws' = (change_to sha hex stamp saved salt current next ws).1 in
      ((auth_middleware now r ws').0 ≢ passes)
      × (check_password sha hex m ip next ws' ≡ start_session m ip ws')
auth_middleware-change_to sha hex stamp saved salt current next now r m ip ws h =
    let (none_, salt_, hash_) = change_to_saved sha hex stamp saved salt current next ws h in
    let ws' = (change_to sha hex stamp saved salt current next ws).1 in
    let right : hash_password_with_salt sha hex next ws'.password_salt ≡ ws'.password_hash =
      ap (hash_password_with_salt sha hex next) salt_ ∙ sym hash_ in
    (nobody_passes now r ws' none_, login_right sha hex m ip next ws' right)
