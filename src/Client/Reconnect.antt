-- ===== src/Client/Reconnect.antt =====
-- What a client requests of the server, when it connects and when it connects again.
use nexus_link.Base.{String, ◌≡◌, refl, sym, ap, ◌∙◌, inl, inr}
use nexus_link.Base.{Bool, true, false, ◌||◌, Option, none, some, List, [], ◌∷◌, arith}
use nexus_link.Base.{Bool-cases, ◌==◌, Eq-nat, Eq-string, Eq-bytes, Eq-pair}
use nexus_link.Base.{any}
use nexus_link.Base.Dict.{is_some, lookup, insert, lookup-insert, apart}
use nexus_link.Base.Rows.{any-append}
use nexus_link.Client.Backends.{UdpSide, close_all, shutdown}
use nexus_link.Client.Registration.{
  ProxyConfig, Proxy, RegisterAnswer, lost, rejected, accepted, Start, Table, on_answer,
  register_proxy, register_all, sync_and_register, shutdown_side, with_side, shutdown_proxy,
  with_row, shutdown_proxies,
}

-- the table has a tunnel of the name
abbrev pub has : String → Table → Bool
has name t = is_some (lookup name t)

has-insert :
    (name other : String) (p : Proxy) (t : Table)
    → has other t ≡ true
    → has other (insert name p t) ≡ true
has-insert name other p t h =
    ap is_some (lookup-insert name other p t)
    ∙ elim (Bool-cases (name == other)) [ inl q ↦ rw q refl | inr q ↦ rw q h ]

has-on_answer :
    (r : RegisterAnswer) (s : Start) (name other : String) (cfg : ProxyConfig) (t : Table)
    → has other t ≡ true
    → has other (on_answer r s name cfg t) ≡ true
unfolding on_answer
has-on_answer lost s name other cfg t h = h
has-on_answer rejected s name other cfg t h = h
has-on_answer (accepted port) s name other cfg t h = has-insert name other _ t h

module _ (answer : String → RegisterAnswer) (start : String → Start) where
  has-register_all :
      (xs : List (String × ProxyConfig)) (other : String) (t : Table)
      → has other t ≡ true
      → has other (register_all answer start xs t).1 ≡ true
  unfolding register_all register_proxy
  has-register_all [] other t h = h
  has-register_all ((name, cfg) ∷ rest) other t h = elim (Bool-cases (has name t)) [
    | inl q ↦ rw (q, register_all) (has-register_all rest other t h)
    | inr q ↦
        rw (q, register_all)
          (has-register_all rest other _
            (has-on_answer (answer name) (start name) name other cfg t h))
  ]

  -- a tunnel of the table is not requested
  not_requested :
      (xs : List (String × ProxyConfig)) (other : String) (t : Table)
      → has other t ≡ true
      → any (λ n. n == other) (register_all answer start xs t).0 ≡ false
  unfolding register_all register_proxy
  not_requested [] other t h = refl
  not_requested ((name, cfg) ∷ rest) other t h = elim (Bool-cases (has name t)) [
    | inl q ↦ rw (q, register_all) (not_requested rest other t h)
    | inr q ↦
        let kept = has-on_answer (answer name) (start name) name other cfg t h in
        let apart_ : (name == other) ≡ false = apart name other (λ e.
          let clash : false ≡ true = sym q ∙ ap (λ n. has n t) e ∙ h in
          absurd (ground (arith, clash))) in
        let later = not_requested rest other _ kept in
        rw (q, register_all) (ground (arith, apart_, later))
  ]

  not_requested-sync :
      (items : Option (List (String × ProxyConfig))) (local : List (String × ProxyConfig))
      (other : String) (t : Table)
      → has other t ≡ true
      → any (λ n. n == other) (sync_and_register answer start items local t).0 ≡ false
  unfolding sync_and_register
  not_requested-sync none local other t h = not_requested local other t h
  not_requested-sync (some items) local other t h =
      let first = register_all answer start items t in
      any-append (λ n. n == other) first.0 (register_all answer start local first.1).0
        (not_requested items other t h)
        (not_requested local other first.1 (has-register_all items other t h))

-- a table that is put together has both its parts
with_row-some :
    (name : String) (a : Option Proxy) (b : Option Table) (t : Table)
    → with_row name a b ≡ some t
    → (p : Proxy) × (r : Table) × (a ≡ some p) × (b ≡ some r) × (t ≡ (name, p) ∷ r)
unfolding with_row
with_row-some name (some p) (some r) t h = (p, r, refl, refl, ground (arith, h))
with_row-some name (some p) none t h = cc
with_row-some name none b t h = cc

-- a shutdown keeps the table
has-shutdown_proxies :
    (other : String) (t t' : Table) → shutdown_proxies t ≡ some t' → has other t' ≡ has other t
unfolding shutdown_proxies lookup
has-shutdown_proxies other [] t' h = ground (arith, h)
has-shutdown_proxies other ((name, p) ∷ t) t' h =
    let (p', r, a, b, e) = with_row-some name (shutdown_proxy p) (shutdown_proxies t) t' h in
    let rest = has-shutdown_proxies other t r b in ap (has other) e ∙ ground (arith, rest)

-- A client that has lost its connection, and has shut its tunnels down, requests none of the
-- tunnels that it had registered, whatever the server lists when it connects again.
pub sync_and_register-shutdown :
    (answer : String → RegisterAnswer) (start : String → Start)
    (items : Option (List (String × ProxyConfig))) (local : List (String × ProxyConfig))
    (other : String) (t t' : Table)
    → has other t ≡ true
    → shutdown_proxies t ≡ some t'
    → any (λ n. n == other) (sync_and_register answer start items local t').0 ≡ false
sync_and_register-shutdown answer start items local other t t' h s =
    not_requested-sync answer start items local other t' (has-shutdown_proxies other t t' s ∙ h)

-- whether a UDP tunnel of the table has a data channel
unfoldable pub has_channel : Table → Bool
has_channel [] = false
has_channel ((name, p) ∷ t) = let rest = has_channel t in is_some p.udp || rest

with_side-some :
    (p : Proxy) (s : Option (Option UdpSide)) (p' : Proxy)
    → with_side p s ≡ some p'
    → (o : Option UdpSide) × (s ≡ some o) × (p' ≡ record p { udp = o })
with_side-some p none p' h = cc
with_side-some p (some o) p' h = (o, refl, ground (arith, h))

shutdown_side_twice :
    (o o' : Option UdpSide) → is_some o ≡ true → shutdown_side o ≡ some o' → shutdown_side o' ≡ none
unfolding shutdown_side shutdown
shutdown_side_twice none o' q h = cc
shutdown_side_twice (some u) o' q h = elim (Bool-cases u.stopped) [
  | inl t ↦ absurd (ground (arith, t, h))
  | inr t ↦
      let told : shutdown_side (some u)
          ≡ some (
              some (record {
                sessions = [];
                sockets = close_all u.sessions u.sockets;
                stopped = true;
              })) =
        rw (t, shutdown_side) refl in
      let same : some
            (record { sessions = []; sockets = close_all u.sessions u.sockets; stopped = true })
          ≡ o' =
        ground (arith, sym told ∙ h) in
      sym (ap shutdown_side same)
]

shutdown_proxy_twice :
    (p p' : Proxy) → is_some p.udp ≡ true → shutdown_proxy p ≡ some p' → shutdown_proxy p' ≡ none
unfolding shutdown_proxy
shutdown_proxy_twice p p' q h =
    let (o, f, e) = with_side-some p (shutdown_side p.udp) p' h in
    ap (λ x. with_side x (shutdown_side x.udp)) e
    ∙ ap (with_side (record p { udp = o })) (shutdown_side_twice p.udp o q f)

with_row-none_left :
    (name : String) (b : Option Table) {a : Option Proxy} → a ≡ none → with_row name a b ≡ none
unfolding with_row
with_row-none_left name b h = ap (λ z. with_row name z b) h

with_row-none_right :
    (name : String) (a : Option Proxy) {b : Option Table} → b ≡ none → with_row name a b ≡ none
unfolding with_row
with_row-none_right name none h = refl
with_row-none_right name (some p) h = ap (with_row name (some p)) h

-- A client that has shut its tunnels down once, one of them with a UDP data channel, panics when it
-- shuts them down again.
pub shutdown_proxies_twice :
    (t t' : Table)
    → has_channel t ≡ true
    → shutdown_proxies t ≡ some t'
    → shutdown_proxies t' ≡ none
unfolding shutdown_proxies has_channel
shutdown_proxies_twice [] t' c h = cc
shutdown_proxies_twice ((name, p) ∷ t) t' c h =
    let (p', r, a, b, e) = with_row-some name (shutdown_proxy p) (shutdown_proxies t) t' h in
    ap shutdown_proxies e ∙ elim (Bool-cases (is_some p.udp)) [
      | inl q ↦ with_row-none_left name (shutdown_proxies r) (shutdown_proxy_twice p p' q a)
      | inr q ↦
          with_row-none_right name (shutdown_proxy p')
            (shutdown_proxies_twice t r (ground (arith, q, c)) b)
    ]
