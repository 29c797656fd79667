-- ===== src/Server/Session.antt =====
-- cmd/server/main.go: handleClient, handleControlMessages and handleSyncProxies: a control
-- connection from the connection guard to its end, for any number of connections at once. Package
-- net, regexp and the decoding of messages are parameters or arguments.
use nexus_link.Base.{ℕ, String, ◌≡◌}
use nexus_link.Base.{
  Bool, true, false, not, Option, none, some, List, [], ◌∷◌, ◌++◌, nat_eq, if◌then◌else◌,
}
use nexus_link.Base.{Eq-nat, Eq-string, Eq-bytes, Eq-pair}
use nexus_link.Base.Dict.{get_or}
use nexus_link.Wire.Stream.{eof, Result, ok, err, Conn}
use nexus_link.Protocol.Message.{Message, type_login, parse_message}
use nexus_link.Guard.State.{
  ConnGuard, Addr, check, ban_for_bad_behavior, clear_misbehavior, release,
}
use nexus_link.Store.Tables.{Proxy}
use nexus_link.Store.Tunnels.{list_proxies_by_client}
use nexus_link.Server.State.{Server}
use nexus_link.Server.Identity.{client_name_for, identify, register}
use nexus_link.Server.Tunnels.{Request, Os, handle_new_proxy, close_proxy, disconnect}

-- a connection that the guard has let in; it has an id once its login is accepted
pub record Live : Type 0 where
  pub id : String
  pub addr : Addr
  pub logged_in : Bool

pub record World (Net : Type 0) : Type 0 where
  pub guard : ConnGuard Net
  pub server : Server
  pub live : List Live

-- what the first message is
pub data First : Type 0 where
  closed_early unreadable wrong_type unparsed : First
  login : String → First

abbrev token_of : Result String → First
token_of (ok token) = login token
token_of (err e) = unparsed

unfoldable pub first_of : (List ℕ → Result String) → Result (Message × Conn) → First
first_of unmarshal (err eof) = closed_early
first_of unmarshal (err e) = unreadable
first_of unmarshal (ok (msg, rest)) =
    if not (nat_eq msg.type type_login) then wrong_type else token_of (parse_message unmarshal msg)

-- handleSyncProxies: the tunnels that the client is to register
unfoldable pub handle_sync_proxies : Bool → String → Server → List Proxy
handle_sync_proxies fault id s = elim s.store [
  | none ↦ []
  | some db ↦ get_or (list_proxies_by_client fault (client_name_for id s) db) []
]

-- the messages of the control loop: a request that is parsed, or any that changes nothing
pub data Control : Type 0 where
  asks : Os → Request → Control
  beats syncs ignored : Control

module _ {Ip Net : Type 0} (parse_ip : String → Option Ip) (contains : Net → Ip → Bool)
    (matches : String → String → Bool) where
  -- handleClient up to the first read
  unfoldable pub open_conn : ℕ → Addr → World Net → World Net
  open_conn now addr w =
      let (admitted, g) = check parse_ip contains w.guard now addr in
      let fresh : Live = record { id = ""; addr = addr; logged_in = false } in
      record w { guard = g; live = if admitted then fresh ∷ w.live else w.live }

  -- the address of the connection without its port, if it has one, is cleared
  unfoldable pub clear_host : Option String → ConnGuard Net → ConnGuard Net
  clear_host none g = g
  clear_host (some host) g = clear_misbehavior g host

  unfoldable pub after_login :
      Option String → Option String × Server → World Net → Option String × World Net
  unfolding clear_host
  after_login host (none, s) w = (none, record w { server = s })
  after_login host (some name, s) w =
      (some name, record w { server = s; guard = clear_host host w.guard })

  -- the first message: the name of the client, if it may go on
  unfoldable pub on_first :
      ℕ → Bool → Option String → Addr → First → World Net → Option String × World Net
  unfolding after_login
  on_first now fault host addr closed_early w = (none, w)
  on_first now fault host addr unreadable w =
      (none, record w { guard = ban_for_bad_behavior parse_ip contains w.guard now addr })
  on_first now fault host addr wrong_type w =
      (none, record w { guard = ban_for_bad_behavior parse_ip contains w.guard now addr })
  on_first now fault host addr unparsed w = (none, w)
  on_first now fault host addr (login token) w = after_login host (identify fault token w.server) w

  -- a connection that may not go on is released; one that may gets its id
  unfoldable pub conclude :
      List Live → Live → List Live → String → ℕ → Option String × World Net → World Net
  conclude before c after id conn (none, w) = record w {
    guard = release w.guard c.addr;
    live = before ++ after;
  }
  conclude before c after id conn (some name, w) =
      let named : Live = record c { id = id; logged_in = true } in
      record w { server = register id conn name w.server; live = before ++ (named ∷ after) }

  -- a round of handleControlMessages
  unfoldable pub control : Control → String → Server → Server
  control (asks os r) id s = (handle_new_proxy matches os id r s).1
  control beats id s = s
  control syncs id s = s
  control ignored id s = s

  -- the end of handleControlMessages and the deferred Release
  unfoldable pub leave : List Live → Live → List Live → World Net → World Net
  leave before c after w = record w {
    guard = release w.guard c.addr;
    server = disconnect c.id w.server;
    live = before ++ after;
  }

  -- one connection does its next step, or the panel closes a tunnel
  pub data Step : World Net → World Net → Type 0 where
    opens : (w : World Net) (now : ℕ) (addr : Addr) → Step w (open_conn now addr w)
    speaks :
        (w : World Net) (before : List Live) (c : Live) (after : List Live) (now : ℕ) (fault : Bool)
        (host : Option String) (first : First) (id : String) (conn : ℕ)
        → w.live ≡ before ++ (c ∷ after)
        → c.logged_in ≡ false
        → Step w (conclude before c after id conn (on_first now fault host c.addr first w))
    controls :
        (w : World Net) (before : List Live) (c : Live) (after : List Live) (m : Control)
        → w.live ≡ before ++ (c ∷ after)
        → c.logged_in ≡ true
        → Step w (record w { server = control m c.id w.server })
    leaves :
        (w : World Net) (before : List Live) (c : Live) (after : List Live)
        → w.live ≡ before ++ (c ∷ after)
        → c.logged_in ≡ true
        → Step w (leave before c after w)
    closes :
        (w : World Net) (name : String)
        → Step w (record w { server = (close_proxy name w.server).1 })

  -- what is reached from a guard without connections and a server without tunnels
  pub data Reach : World Net → Type 0 where
    starts :
        (w : World Net) → w.live ≡ [] → w.guard.conn_count ≡ [] → w.server.proxies ≡ [] → Reach w
    further : {w v : World Net} → Reach w → Step w v → Reach v
