-- ===== src/Config/Load.antt =====
-- pkg/config/config.go: LoadServerConfig, LoadClientConfig and the defaults. Reading a file and
-- decoding YAML give a configuration or an error; whether an address resolves is a parameter. Of a
-- server's configuration the fields that have defaults are modelled.
use nexus_link.Base.{ℕ, String}
use nexus_link.Base.{
  Bool, false, not, ◌&&◌, ◌||◌, Option, none, some, [], ◌∷◌, nat_eq, if◌then◌else◌,
}
use nexus_link.Base.{◌==◌, Eq-nat, Eq-string, Eq-bytes, Eq-pair}
use nexus_link.Base.{any}
use nexus_link.Base.Dict.{Dict}
use nexus_link.Client.Registration.{ProxyConfig}

pub record ServerConfig : Type 0 where
  pub bind_addr : String
  pub bind_port : ℕ
  pub token : String
  pub web_addr : String
  pub web_port : ℕ
  pub web_password : String

pub record ClientConfig : Type 0 where
  pub server_ip : String
  pub server_port : ℕ
  pub token : String
  pub tls_enable : Bool
  pub tls_ca : String
  pub tls_insecure : Bool
  pub proxies : Dict String ProxyConfig

abbrev pub text_or : String → String → String
text_or s d = if s == "" then d else s

abbrev pub port_or : ℕ → ℕ → ℕ
port_or n d = if nat_eq n 0 then d else n

-- LoadServerConfig, on the file and the variable NEXUSLINK_WEB_PASSWORD
unfoldable pub load_server_config : Option ServerConfig → String → Option ServerConfig
load_server_config none env_password = none
load_server_config (some cfg) env_password = some (record cfg {
  web_password = text_or cfg.web_password (text_or env_password "admin123");
  bind_addr = text_or cfg.bind_addr "0.0.0.0";
  bind_port = port_or cfg.bind_port 7000;
  web_addr = text_or cfg.web_addr "127.0.0.1";
  web_port = port_or cfg.web_port 7001;
})

unfoldable pub default_server_config : ServerConfig
default_server_config = record {
  bind_addr = "0.0.0.0";
  bind_port = 7000;
  token = "change_me_to_secure_token";
  web_addr = "";
  web_port = 0;
  web_password = "";
}

unfoldable pub new_client_config : ClientConfig
new_client_config = record {
  server_ip = "127.0.0.1";
  server_port = 7000;
  token = "";
  tls_enable = false;
  tls_ca = "";
  tls_insecure = false;
  proxies = [];
}

unfoldable pub default_client_config : ClientConfig
default_client_config = record {
  server_ip = "1.1.1.1";
  server_port = 7000;
  token = "your_token_here";
  tls_enable = false;
  tls_ca = "";
  tls_insecure = false;
  proxies =
      ("mc", record { type = "tcp"; port = 25565; local_addr = "127.0.0.1"; local_port = 25565 })
      ∷ [];
}

-- the address and the port of the server, with their defaults
unfoldable pub with_defaults : ClientConfig → ClientConfig
with_defaults cfg = record cfg {
  server_ip = text_or cfg.server_ip "127.0.0.1";
  server_port = port_or cfg.server_port 7000;
}

-- whether a tunnel asks for the port of the server
unfoldable pub conflicts : ℕ → Dict String ProxyConfig → Bool
conflicts port proxies = any (λ e. nat_eq e.1.port port) proxies

unfoldable pub is_local : String → Bool
is_local ip = ip == "127.0.0.1" || ip == "::1"

module _ (resolves : String → ℕ → Bool) where
  -- LoadClientConfig, on the file
  unfoldable pub load_client_config : Option ClientConfig → Option ClientConfig
  unfolding with_defaults conflicts is_local
  load_client_config none = none
  load_client_config (some file) =
      let cfg = with_defaults file in
      if not (is_local cfg.server_ip) && not (resolves cfg.server_ip cfg.server_port)
      then none
      else if conflicts cfg.server_port cfg.proxies
      then none
      else some cfg
