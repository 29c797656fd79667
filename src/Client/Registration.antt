-- ===== src/Client/Registration.antt =====
-- cmd/client/main.go: syncAndRegisterProxies, registerLocalProxies, registerProxy, handleCloseProxy and
-- shutdownProxies, on the table of tunnels. What the server answers to a request, and how the UDP data
-- channel of a tunnel starts, is given by functions of the tunnel's name; a range over a map takes the
-- order of the list. The names that are requested from the server are returned.
use nexus_link.Base.{ℕ, String}
use nexus_link.Base.{
  false, not, ◌&&◌, Option, none, some, List, [], ◌∷◌, ◌++◌, nat_eq, if◌then◌else◌,
}
use nexus_link.Base.{◌==◌, Eq-nat, Eq-string, Eq-bytes, Eq-pair}
use nexus_link.Base.Dict.{Dict, is_some, lookup, insert, remove}
use nexus_link.Client.Backends.{UdpSide, shutdown, stop}

pub record ProxyConfig : Type 0 where
  pub type : String
  pub port : ℕ
  pub local_addr : String
  pub local_port : ℕ

pub record Proxy : Type 0 where
  pub config : ProxyConfig
  pub udp : Option UdpSide

-- the answer to a request: it does not come, it is a refusal, or it has a UDP data port
pub data RegisterAnswer : Type 0 where
  lost rejected : RegisterAnswer
  accepted : ℕ → RegisterAnswer

-- the start of a data channel: no socket, a greeting that is not written, or a channel that runs
pub data Start : Type 0 where
  no_socket greeting_failed started : Start

abbrev pub Table : Type 0
Table = Dict String Proxy

abbrev pub new_side : UdpSide
new_side = record { sessions = []; sockets = []; stopped = false }

unfoldable pub start_side : Start → Option UdpSide
start_side no_socket = none
start_side greeting_failed = some new_side
start_side started = some new_side

-- registerProxy after the answer
unfoldable pub on_answer : RegisterAnswer → Start → String → ProxyConfig → Table → Table
unfolding start_side
on_answer lost start name cfg t = t
on_answer rejected start name cfg t = t
on_answer (accepted port) start name cfg t =
    let udp = if cfg.type == "udp" && not (nat_eq port 0) then start_side start else none in
    insert name (record { config = cfg; udp = udp }) t

module _ (answer : String → RegisterAnswer) (start : String → Start) where
  -- registerProxy: the request, and the table after the answer
  unfoldable pub register_proxy : String → ProxyConfig → Table → Table
  unfolding on_answer
  register_proxy name cfg t = on_answer (answer name) (start name) name cfg t

  -- the loops over the items of the server and over the local tunnels; those in the table are skipped
  unfoldable pub register_all : List (String × ProxyConfig) → Table → List String × Table
  unfolding register_proxy
  register_all [] t = ([], t)
  register_all ((name, cfg) ∷ rest) t =
      if is_some (lookup name t)
      then register_all rest t
      else let (names, last) = register_all rest (register_proxy name cfg t) in (name ∷ names, last)

  -- syncAndRegisterProxies; `none` when the server gives no list
  unfoldable pub sync_and_register :
      Option (List (String × ProxyConfig))
      → List (String × ProxyConfig)
      → Table
      → List String × Table
  unfolding register_all
  sync_and_register none local t = register_all local t
  sync_and_register (some items) local t =
      let (names, t1) = register_all items t in
      let (names', t2) = register_all local t1 in (names ++ names', t2)

-- handleCloseProxy: the tunnel leaves the table, and its channel is stopped; its sessions stay open
unfoldable pub handle_close_proxy : String → Table → Option UdpSide × Table
unfolding stop
handle_close_proxy name t = elim (lookup name t) [
  | none ↦ (none, t)
  | some p ↦ (elim p.udp [ none ↦ none | some u ↦ some (stop u) ], remove name t)
]

-- shutdownProxies on one tunnel, which is shut down if it has a data channel
unfoldable pub shutdown_side : Option UdpSide → Option (Option UdpSide)
unfolding shutdown
shutdown_side none = some none
shutdown_side (some u) = elim (shutdown u) [ none ↦ none | some u' ↦ some (some u') ]

abbrev pub with_side : Proxy → Option (Option UdpSide) → Option Proxy
with_side p none = none
with_side p (some o) = some (record p { udp = o })

unfoldable pub shutdown_proxy : Proxy → Option Proxy
unfolding shutdown_side
shutdown_proxy p = with_side p (shutdown_side p.udp)

unfoldable pub with_row : String → Option Proxy → Option Table → Option Table
with_row name (some p) (some t) = some ((name, p) ∷ t)
with_row name (some p) none = none
with_row name none rest = none

-- shutdownProxies; `none` is a panic
unfoldable pub shutdown_proxies : Table → Option Table
unfolding shutdown_proxy with_row
shutdown_proxies [] = some []
shutdown_proxies ((name, p) ∷ t) = with_row name (shutdown_proxy p) (shutdown_proxies t)
