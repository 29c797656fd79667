-- ===== src/Store/Tables.antt =====
-- pkg/store/store.go: the tables, as lists of rows in the order of their ids. An operation takes a
-- `fault`, which says that the driver reports an error and has done nothing; `none` is an error
-- that the operation returns. Counters and limits are plain numbers, times are texts.
use nexus_link.Base.{ℕ, String}
use nexus_link.Base.{Bool, List}
use nexus_link.Base.{Eq-nat, Eq-string, Eq-bytes}

pub record Client : Type 0 where
  pub id : ℕ
  pub name : String
  pub token : String
  pub max_tunnels : ℕ
  pub max_traffic_bytes : ℕ
  pub bytes_in : ℕ
  pub bytes_out : ℕ
  pub status : String
  pub owner : String
  pub created_at : String
  pub updated_at : String

pub record ApiKey : Type 0 where
  pub key : String
  pub note : String
  pub created_at : String

pub record Proxy : Type 0 where
  pub id : ℕ
  pub name : String
  pub type : String
  pub remote_port : ℕ
  pub local_addr : String
  pub local_port : ℕ
  pub client_name : String
  pub enabled : Bool
  pub created_at : String

pub record User : Type 0 where
  pub id : ℕ
  pub username : String
  pub password_hash : String
  pub password_salt : String
  pub role : String
  pub api_token : String
  pub status : String
  pub created_at : String
  pub updated_at : String

-- the tables, with the last id that each AUTOINCREMENT column has given out
pub record Store : Type 0 where
  pub clients : List Client
  pub client_seq : ℕ
  pub users : List User
  pub user_seq : ℕ
  pub api_keys : List ApiKey
  pub settings : List (String × String)
  pub proxies : List Proxy
  pub proxy_seq : ℕ
