-- ===== src/Server/Tunnels.antt =====
-- cmd/server/main.go: proxyAllowed, handleNewProxy, cleanupProxy, CloseProxy and the end of
-- handleControlMessages. regexp.MatchString is a parameter; what the operating system answers to the
-- calls of net.Listen and net.ListenUDP is an argument.
use nexus_link.Base.{ℕ, String}
use nexus_link.Base.{
  Bool, true, false, not, ◌&&◌, ◌||◌, Option, none, some, List, [], ◌∷◌, ltb, nat_eq, if◌then◌else◌,
}
use nexus_link.Base.{◌==◌, Eq-nat, Eq-string, Eq-bytes, Eq-pair}
use nexus_link.Base.{length, any}
use nexus_link.Base.Dict.{is_some, lookup, insert, remove, keys}
use nexus_link.Server.State.{Proxy, Acl, Server}
use nexus_link.Server.Identity.{client_name_for, auth_for_client}

pub record Request : Type 0 where
  pub name : String
  pub type : String
  pub remote_port : ℕ

-- the public socket and the data socket with its port, if they can be had
pub record Os : Type 0 where
  pub resolved : Bool
  pub main : Option ℕ
  pub data_resolved : Bool
  pub second : Option (ℕ × ℕ)

pub data Answer : Type 0 where
  blocked exists unsupported listen_failed data_failed : Answer
  created : ℕ → ℕ → Answer

-- Close of a socket
unfoldable pub close_socket : ℕ → List ℕ → List ℕ
close_socket h [] = []
close_socket h (k ∷ ks) = let rest = close_socket h ks in if nat_eq k h then ks else k ∷ rest

unfoldable pub proxy_allowed : (String → String → Bool) → Acl → String → ℕ → Bool
proxy_allowed matches acl name port =
    if nat_eq (length acl.allow_names) 0 && nat_eq (length acl.allow_ports) 0
    then true
    else if ltb 0 (length acl.allow_names) && not (any (λ p. matches p name) acl.allow_names)
    then false
    else if ltb 0 (length acl.allow_ports) && not (any (λ p. nat_eq p port) acl.allow_ports)
    then false
    else true

abbrev pub new_proxy : String → Request → Server → ℕ → ℕ → ℕ → Proxy
new_proxy id r s main second port =
    let client = client_name_for id s in
    record {
      name = r.name;
      type = r.type;
      remote_port = r.remote_port;
      owner = id;
      client_name = client;
      secret = auth_for_client client s;
      listener = main;
      data_listener = second;
      data_port = port;
    }

-- a tunnel with both its sockets is registered
unfoldable pub install : String → Request → ℕ → ℕ → ℕ → Server → Answer × Server
install id r main second port s = (
  created r.remote_port (if r.type == "udp" then port else 0),
  record s { proxies = insert r.name (new_proxy id r s main second port) s.proxies },
)

-- the data socket; without it the public one is closed
unfoldable pub open_second : Os → String → Request → ℕ → Server → Answer × Server
unfolding close_socket install
open_second os id r main s =
    elim (if r.type == "udp" && not os.data_resolved then none else os.second) [
      | none ↦ (data_failed, record s { sockets = close_socket main s.sockets })
      | some (second, port) ↦
          install id r main second port (record s { sockets = second ∷ s.sockets })
    ]

unfoldable pub open_main : Os → String → Request → Server → Answer × Server
unfolding open_second
open_main os id r s = elim (if r.type == "udp" && not os.resolved then none else os.main) [
  | none ↦ (listen_failed, s)
  | some main ↦ open_second os id r main (record s { sockets = main ∷ s.sockets })
]

unfoldable pub handle_new_proxy :
    (String → String → Bool) → Os → String → Request → Server → Answer × Server
unfolding proxy_allowed open_main
handle_new_proxy matches os id r s =
    if not (proxy_allowed matches s.acl r.name r.remote_port)
    then (blocked, s)
    else if is_some (lookup r.name s.proxies)
    then (exists, s)
    else if r.type == "tcp" || r.type == "udp"
    then open_main os id r s
    else (unsupported, s)

unfoldable pub cleanup_proxy : String → Proxy → Server → Server
unfolding close_socket
cleanup_proxy name p s = record s {
  proxies = remove name s.proxies;
  sockets = close_socket p.data_listener (close_socket p.listener s.sockets);
}

-- CloseProxy; the handles of connections that are told are those of the owner
unfoldable pub close_proxy : String → Server → Bool × Server
unfolding cleanup_proxy
close_proxy name s = elim (lookup name s.proxies) [
  | none ↦ (false, s)
  | some p ↦ (true, cleanup_proxy name p s)
]

-- the range over the tunnels at the end of a control connection, in some order
unfoldable pub cleanup_owned : String → List String → Server → Server
unfolding cleanup_proxy
cleanup_owned id [] s = s
cleanup_owned id (name ∷ rest) s = cleanup_owned id rest (elim (lookup name s.proxies) [
  | some p ↦ if p.owner == id then cleanup_proxy name p s else s
  | none ↦ s
])

unfoldable pub disconnect : String → Server → Server
unfolding cleanup_owned
disconnect id s =
    let s1 = cleanup_owned id (keys s.proxies) s in record s1 { clients = remove id s1.clients }
