-- ===== src/Server/State.antt =====
-- cmd/server/main.go: Server, Proxy, ClientTraffic and config.ManagedClient. A nil map reads as an
-- empty one. A socket is a handle, and `sockets` holds those that the server has open. Traffic
-- counters are int64 patterns.
use nexus_link.Base.{ℕ, String}
use nexus_link.Base.{Bool, Option, List}
use nexus_link.Base.{Eq-nat, Eq-string, Eq-bytes, Eq-pair}
use nexus_link.Base.Dict.{Dict}
use nexus_link.Store.Tables.{Store}

pub record ManagedClient : Type 0 where
  pub name : String
  pub token : String
  pub max_tunnels : ℕ
  pub max_traffic_bytes : ℕ

pub record Proxy : Type 0 where
  pub name : String
  pub type : String
  pub remote_port : ℕ
  pub owner : String
  pub client_name : String
  pub secret : String
  pub listener : ℕ
  pub data_listener : ℕ
  pub data_port : ℕ

pub record Acl : Type 0 where
  pub allow_names : List String
  pub allow_ports : List ℕ

pub record Server : Type 0 where
  pub token : String
  pub acl : Acl
  pub proxies : Dict String Proxy
  pub clients : Dict String ℕ
  pub managed_by_token : Dict String ManagedClient
  pub client_names : Dict String String
  pub client_traffic : Dict String (ℕ × ℕ)
  pub store : Option Store
  pub notified_limit : Dict String Bool
  pub sockets : List ℕ
