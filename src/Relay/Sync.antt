-- ===== src/Relay/Sync.antt =====
-- What a client requests after a login: the tunnels that the database has for it.
use nexus_link.Base.{String, ◌≡◌, refl, sym, ap, ◌∙◌, inl, inr}
use nexus_link.Base.{Bool, true, false, not, ◌&&◌, some, List, [], ◌∷◌, map, arith}
use nexus_link.Base.{Bool-cases, ◌==◌, Eq-nat, Eq-string, Eq-bytes, Eq-pair}
use nexus_link.Base.{keep, any}
use nexus_link.Base.Dict.{is_some, lookup, lookup-insert_other}
use mathlib.Core.List.{append-nil}
use nexus_link.Base.Rows.{any-keep}
use nexus_link.Store.Tables.{Store, Proxy as Row}
use nexus_link.Store.Tunnels.{list_proxies_by_client}
use nexus_link.Server.State.{Server}
use nexus_link.Server.Identity.{client_name_for}
use nexus_link.Server.Session.{handle_sync_proxies}
use nexus_link.Client.Registration.{
  ProxyConfig, RegisterAnswer, lost, rejected, accepted, Start, Table, on_answer, register_proxy,
  register_all, sync_and_register,
}
use nexus_link.Client.Reconnect.{has}

-- an answer for one tunnel adds no other
has-on_answer_other :
    (r : RegisterAnswer) (s : Start) (name other : String) (cfg : ProxyConfig) (t : Table)
    → (name == other) ≡ false
    → has other (on_answer r s name cfg t) ≡ has other t
unfolding on_answer
has-on_answer_other lost s name other cfg t q = refl
has-on_answer_other rejected s name other cfg t q = refl
has-on_answer_other (accepted port) s name other cfg t q =
    ap is_some (lookup-insert_other name other _ t q)

-- the item of a row
abbrev pub item_of : Row → String × ProxyConfig
item_of p = (
  p.name,
  record {
    type = p.type;
    port = p.remote_port;
    local_addr = p.local_addr;
    local_port = p.local_port;
  },
)

any-map :
    (other : String) (rows : List Row)
    → any (λ (e : String × ProxyConfig). e.0 == other) (map item_of rows)
      ≡ any (λ (p : Row). p.name == other) rows
any-map other [] = refl
any-map other (p ∷ rows) = ground (arith, any-map other rows)

module _ (answer : String → RegisterAnswer) (start : String → Start) where
  -- a tunnel of the list is requested if it is not in the table
  requested :
      (xs : List (String × ProxyConfig)) (other : String) (t : Table)
      → any (λ n. n == other) (register_all answer start xs t).0
        ≡ (any (λ (e : String × ProxyConfig). e.0 == other) xs && not (has other t))
  unfolding register_all register_proxy
  requested [] other t = refl
  requested ((name, cfg) ∷ rest) other t = elim (Bool-cases (has name t)) [
    | inl q ↦
        let later = requested rest other t in
        rw (q, register_all)
          (elim (Bool-cases (name == other)) [
            | inr s ↦ ground (arith, later, s)
            | inl s ↦
                let here : has other t ≡ true =
                  ap (λ n. has n t) (sym ((Eq-string.same_iff name other).0 s)) ∙ q in
                ground (arith, later, s, here)
          ])
    | inr q ↦
        let t' = on_answer (answer name) (start name) name cfg t in
        let later = requested rest other t' in
        rw (q, register_all)
          (elim (Bool-cases (name == other)) [
            | inr s ↦
                ground (
                  arith,
                  later,
                  s,
                  has-on_answer_other (answer name) (start name) name other cfg t s,
                )
            | inl s ↦
                let here : has other t ≡ false =
                  ap (λ n. has n t) (sym ((Eq-string.same_iff name other).0 s)) ∙ q in
                ground (arith, s, here)
          ])
  ]

  -- A client that has no tunnels yet, and none of its own in its file, requests after its login
  -- exactly the tunnels that the database has for its name and that are enabled.
  pub sync_and_register-handle_sync_proxies :
      (s : Server) (db : Store) (id other : String)
      → s.store ≡ some db
      → any
          (λ n. n == other)
          (sync_and_register answer start
            (some (map item_of (handle_sync_proxies false id s)))
            []
            []).0
        ≡ any
            (λ (p : Row). (p.client_name == client_name_for id s && p.enabled) && p.name == other)
            db.proxies
  unfolding sync_and_register handle_sync_proxies list_proxies_by_client lookup client_name_for
  sync_and_register-handle_sync_proxies s db id other h =
      let mine : Row → Bool = λ p. p.client_name == client_name_for id s && p.enabled in
      let rows = handle_sync_proxies false id s in
      let listed : rows ≡ keep mine db.proxies = rw (h, handle_sync_proxies) refl in
      let names = (register_all answer start (map item_of rows) []).0 in
      let first : any (λ n. n == other) names ≡ any (λ (p : Row). p.name == other) rows =
        ground (arith, requested (map item_of rows) other [], any-map other rows) in
      ap (any (λ n. n == other)) (append-nil names)
      ∙ first
      ∙ ap (any (λ (p : Row). p.name == other)) listed
      ∙ any-keep (λ (p : Row). p.name == other) mine db.proxies
