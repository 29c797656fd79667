-- ===== src/Server/Tenure.antt =====
-- Whose tunnels the server has, however the connections of any number of clients interleave.
use nexus_link.Base.{ℕ, String, ◌≡◌, refl, sym, ap, ◌∙◌, ◌⊎◌, inl, inr}
use nexus_link.Base.{
  Bool, true, false, ◌&&◌, Option, none, some, List, [], ◌∷◌, ◌++◌, arith, if◌then◌else◌,
}
use nexus_link.Base.{Bool-cases, Option-cases, ◌==◌, Eq-nat, Eq-string, Eq-bytes, Eq-pair}
use nexus_link.Base.Dict.{lookup, remove, insert_cases, remove_cases}
use mathlib.Core.Path.{subst}
use nexus_link.Guard.State.{Addr}
use nexus_link.Store.Clients.{get_client_by_token}
use nexus_link.Server.State.{Server, Proxy}
use nexus_link.Server.Identity.{identify, indexed_name, stored_name, fallback_name, register}
use nexus_link.Server.Tunnels.{Request, Os, new_proxy, handle_new_proxy, cleanup_proxy, close_proxy}
use nexus_link.Server.Ownership.{Outcome-new}
use nexus_link.Server.Departure.{lookup-disconnect}
use nexus_link.Server.Session.{
  Live, World, First, closed_early, unreadable, wrong_type, unparsed, login, Control, asks, beats,
  syncs, ignored, open_conn, after_login, on_first, conclude, control, leave, Step, opens, speaks,
  controls, leaves, closes, Reach, starts, further,
}

-- whether a connection of the id is logged in
unfoldable pub is_online : String → List Live → Bool
is_online id [] = false
is_online id (c ∷ cs) =
    let rest = is_online id cs in if c.logged_in && c.id == id then true else rest

online-split :
    (id : String) (before : List Live) (c : Live) (after : List Live)
    → is_online id (before ++ (c ∷ after))
      ≡ (if c.logged_in && c.id == id then true else is_online id (before ++ after))
unfolding is_online
online-split id [] c after = refl
online-split id (b ∷ before) c after = ground (arith, online-split id before c after)

-- every tunnel is owned by a connection that is logged in
abbrev IsOwned : Server → List Live → Type 0
IsOwned s live =
    (name : String) (p : Proxy) → lookup name s.proxies ≡ some p → is_online p.owner live ≡ true

stored_proxies :
    (fault : Bool) (token : String) (s : Server) → (stored_name fault token s).1.proxies ≡ s.proxies
unfolding stored_name
stored_proxies fault token s = elim (Option-cases s.store) [
  | inr n ↦ rw (n, stored_name) refl
  | inl (db, f) ↦ elim (Option-cases (get_client_by_token fault token db)) [
    | inr n ↦ rw (f, n, stored_name) refl
    | inl (none, g) ↦ rw (f, g, stored_name) refl
    | inl (some c, g) ↦ rw (f, g, stored_name) refl
  ]
]

fallback_proxies :
    (token : String) (r : String × Server) → (fallback_name token r).1.proxies ≡ r.1.proxies
unfolding fallback_name
fallback_proxies token (name, s) = ground arith

-- a login changes no tunnel
identify_proxies :
    (fault : Bool) (token : String) (s : Server) → (identify fault token s).1.proxies ≡ s.proxies
unfolding identify
identify_proxies fault token s = elim (Bool-cases (indexed_name token s == "")) [
  | inl q ↦
      fallback_proxies token (
        if indexed_name token s == "" then stored_name fault token s else (indexed_name token s, s))
      ∙ rw q (stored_proxies fault token s)
  | inr q ↦
      fallback_proxies token (
        if indexed_name token s == "" then stored_name fault token s else (indexed_name token s, s))
      ∙ rw q refl
]

-- what a request adds is owned by the connection that makes it
new_tunnel :
    (matches : String → String → Bool) (os : Os) (id : String) (r : Request) (s : Server)
    (name : String) (p : Proxy)
    → lookup name (handle_new_proxy matches os id r s).1.proxies ≡ some p
    → (p.owner ≡ id) ⊎ (lookup name s.proxies ≡ some p)
new_tunnel matches os id r s name p h = elim (Outcome-new matches os id r s) [
  | inr (f, e) ↦ inr (ap (λ x. lookup name x.proxies) (sym e) ∙ h)
  | inl (t, c) ↦
      let made = new_proxy id r s c.main c.second c.port in
      elim (insert_cases r.name name made p s.proxies
        (ap (λ x. lookup name x.proxies) (sym c.state) ∙ h)) [
          | inl (q, e) ↦ inl (ap (λ x. x.owner) (sym e))
          | inr (q, l) ↦ inr l
        ]
]

-- what is there after a tunnel is closed was there before
old_tunnel :
    (closed name : String) (s : Server) (p : Proxy)
    → lookup name (close_proxy closed s).1.proxies ≡ some p
    → lookup name s.proxies ≡ some p
unfolding close_proxy cleanup_proxy
old_tunnel closed name s p h = elim (Option-cases (lookup closed s.proxies)) [
  | inr n ↦
      let same : (close_proxy closed s).1.proxies ≡ s.proxies = rw (n, close_proxy) refl in
      ap (lookup name) (sym same) ∙ h
  | inl (q, f) ↦
      let same : (close_proxy closed s).1.proxies ≡ remove closed s.proxies =
        rw (f, close_proxy) refl in
      (remove_cases closed name p s.proxies (ap (lookup name) (sym same) ∙ h)).1
]

-- a tunnel whose owner is online stays owned when a connection that is not logged in goes
owned_leave :
    (id : String) (before : List Live) (c : Live) (after : List Live)
    → (c.logged_in && c.id == id) ≡ false
    → is_online id (before ++ (c ∷ after)) ≡ true
    → is_online id (before ++ after) ≡ true
owned_leave id before c after n h = ground (arith, online-split id before c after, n, h)

module _ {Ip Net : Type 0} (parse_ip : String → Option Ip) (contains : Net → Ip → Bool)
    (matches : String → String → Bool) where
  IsOwned-open :
      (now : ℕ) (addr : Addr) (w : World Net)
      → IsOwned w.server w.live
      → let w' = open_conn parse_ip contains matches now addr w in IsOwned w'.server w'.live
  unfolding open_conn is_online
  IsOwned-open now addr w h name p l = ground (arith, h name p l)

  login_proxies :
      (host : Option String) (r : Option String × Server) (w : World Net)
      → (after_login parse_ip contains matches host r w).1.server.proxies ≡ r.1.proxies
  unfolding after_login
  login_proxies host (none, s) w = refl
  login_proxies host (some name, s) w = refl

  first_proxies :
      (now : ℕ) (fault : Bool) (host : Option String) (addr : Addr) (first : First) (w : World Net)
      → (on_first parse_ip contains matches now fault host addr first w).1.server.proxies
        ≡ w.server.proxies
  unfolding on_first
  first_proxies now fault host addr closed_early w = refl
  first_proxies now fault host addr unreadable w = refl
  first_proxies now fault host addr wrong_type w = refl
  first_proxies now fault host addr unparsed w = refl
  first_proxies now fault host addr (login token) w =
      login_proxies host (identify fault token w.server) w ∙ identify_proxies fault token w.server

  IsOwned-conclude :
      (before : List Live) (c : Live) (after : List Live) (id : String) (conn : ℕ)
      (r : Option String × World Net)
      → c.logged_in ≡ false
      → IsOwned r.1.server (before ++ (c ∷ after))
      → let w' = conclude parse_ip contains matches before c after id conn r in
        IsOwned w'.server w'.live
  unfolding conclude
  IsOwned-conclude before c after id conn (none, w) n h name p l =
      owned_leave p.owner before c after (ground (arith, n)) (h name p l)
  IsOwned-conclude before c after id conn (some client, w) n h name p l =
      let named : Live = record c { id = id; logged_in = true } in
      let kept : lookup name w.server.proxies ≡ some p = unfold register in l in
      ground (
        arith,
        online-split p.owner before named after,
        owned_leave p.owner before c after (ground (arith, n)) (h name p kept),
      )

  IsOwned-control :
      (before : List Live) (c : Live) (after : List Live) (m : Control) (s : Server)
      → c.logged_in ≡ true
      → IsOwned s (before ++ (c ∷ after))
      → IsOwned (control parse_ip contains matches m c.id s) (before ++ (c ∷ after))
  unfolding control
  IsOwned-control before c after (asks os r) s n h name p l =
      elim (new_tunnel matches os c.id r s name p l) [
        | inr old ↦ h name p old
        | inl mine ↦
            let me : (c.id == p.owner) ≡ true = (Eq-string.same_iff c.id p.owner).1 (sym mine) in
            ground (arith, online-split p.owner before c after, n, me)
      ]
  IsOwned-control before c after beats s n h name p l = h name p l
  IsOwned-control before c after syncs s n h name p l = h name p l
  IsOwned-control before c after ignored s n h name p l = h name p l

  IsOwned-Step :
      {w v : World Net}
      → Step parse_ip contains matches w v
      → IsOwned w.server w.live
      → IsOwned v.server v.live
  unfolding leave
  IsOwned-Step (opens w now addr) h = IsOwned-open now addr w h
  IsOwned-Step (speaks w before c after now fault host first id conn e n) h =
      let r = on_first parse_ip contains matches now fault host c.addr first w in
      IsOwned-conclude before c after id conn r n (λ name p l.
        subst (λ x. is_online p.owner x ≡ true) e
          (h name p (ap (lookup name) (sym (first_proxies now fault host c.addr first w)) ∙ l)))
  IsOwned-Step (controls w before c after m e n) h =
      subst (IsOwned (control parse_ip contains matches m c.id w.server)) (sym e)
        (IsOwned-control before c after m w.server n (subst (IsOwned w.server) e h))
  IsOwned-Step (leaves w before c after e n) h = λ name p l.
      let (old, other) = (lookup-disconnect c.id w.server name p).0 l in
      let apart_ : (c.logged_in && c.id == p.owner) ≡ false =
        ground (arith, other, Eq-string.same_iff c.id p.owner, Eq-string.same_iff p.owner c.id) in
      owned_leave p.owner before c after apart_
        (subst (λ x. is_online p.owner x ≡ true) e (h name p old))
  IsOwned-Step (closes w name) h = λ other p l. h other p (old_tunnel name other w.server p l)

  -- However connections are opened, log in or fail to, request tunnels and end, and tunnels are
  -- closed from the panel, every tunnel of the server is owned by a connection that is logged in
  -- and has not ended.
  pub Reach-IsOwned :
      {w : World Net}
      → Reach parse_ip contains matches w
      → (name : String) (p : Proxy) → lookup name w.server.proxies ≡ some p
      → is_online p.owner w.live ≡ true
  unfolding lookup
  Reach-IsOwned (starts w l c p) name q h =
      let none_ : lookup name w.server.proxies ≡ none = ap (lookup name) p in
      absurd (ground (arith, sym none_ ∙ h))
  Reach-IsOwned (further r st) name q h = IsOwned-Step st (Reach-IsOwned r) name q h
