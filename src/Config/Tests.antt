-- ===== src/Config/Tests.antt =====
-- A client that starts from a file, with a flag for the address.
use nexus_link.Base.{ℕ, ◌<◌, String, ◌≡◌, refl}
use nexus_link.Base.{Bool, true, false, ◌||◌, none, some, [], ◌∷◌, if◌then◌else◌}
use nexus_link.Base.{◌==◌, Eq-nat, Eq-string, Eq-bytes, Eq-pair}
use nexus_link.Base.Dict.{Dict}
use nexus_link.Client.Registration.{ProxyConfig}
use nexus_link.Config.Load.{
  ClientConfig, text_or, with_defaults, conflicts, is_local, load_client_config,
}
use nexus_link.Config.Startup.{
  Flags, port_of, Env, apply_env, apply_flags, select_tunnel, settle, base_config, start_config,
  digits_from, unsigned, atoi,
}
use nexus_link.Config.Precedence.{load_client_config_valid, start_config_first}

abbrev tunnels : Dict String ProxyConfig
tunnels =
    ("tunnel_7", record { type = "tcp"; port = 2222; local_addr = "127.0.0.1"; local_port = 22 })
    ∷ ("web", record { type = "tcp"; port = 8080; local_addr = "127.0.0.1"; local_port = 80 })
    ∷ []

abbrev in_file : ClientConfig
in_file = record {
  server_ip = "";
  server_port = 7100;
  token = "file";
  tls_enable = false;
  tls_ca = "";
  tls_insecure = false;
  proxies = tunnels;
}

abbrev loaded : ClientConfig
loaded = record in_file { server_ip = "127.0.0.1" }

abbrev resolved : String → ℕ → Bool
resolved ip port = true

load_client_config_valid_test :
    ((loaded.server_ip == "") ≡ false)
    × (0 < loaded.server_port)
    × ((is_local loaded.server_ip || resolved loaded.server_ip loaded.server_port) ≡ true)
    × (conflicts loaded.server_port loaded.proxies ≡ false)
load_client_config_valid_test =
    load_client_config_valid resolved (some in_file) loaded
      (unfold load_client_config with_defaults conflicts is_local in refl)

-- a tunnel on the port of the server
conflict_test : load_client_config resolved (some (record in_file { server_port = 2222 })) ≡ none
unfolding load_client_config with_defaults conflicts is_local
conflict_test = refl

abbrev variables : Env
variables name =
    if name == "NEXUSLINK_TOKEN"
    then "variable"
    else if name == "NEXUSLINK_PORT"
    then "+7200"
    else ""

abbrev flags : Flags
flags = record { server = "203.0.113.9"; port = 0; token = "flag"; api = ""; tunnel_id = "7" }

abbrev started_with : ClientConfig
started_with = record {
  server_ip = "203.0.113.9";
  server_port = 7200;
  token = "flag";
  tls_enable = false;
  tls_ca = "";
  tls_insecure = false;
  proxies =
      ("tunnel_7", record { type = "tcp"; port = 2222; local_addr = "127.0.0.1"; local_port = 22 })
      ∷ [];
}

loaded_file : base_config resolved (some (some in_file)) variables flags ≡ some loaded
unfolding base_config load_client_config with_defaults conflicts is_local
loaded_file = refl

starts : start_config resolved (some (some in_file)) variables flags ≡ some started_with
unfolding start_config base_config load_client_config with_defaults conflicts is_local apply_env
    apply_flags settle select_tunnel port_of atoi unsigned digits_from
starts = refl

start_config_first_example :
    (started_with.server_ip
      ≡ text_or flags.server
          (text_or (variables "NEXUSLINK_SERVER") (text_or loaded.server_ip "127.0.0.1")))
    × (started_with.token
        ≡ text_or
            (if flags.api == "" then flags.token else "")
            (text_or (variables "NEXUSLINK_TOKEN") loaded.token))
    × ((started_with.token == "") ≡ false)
start_config_first_example =
    start_config_first resolved (some (some in_file)) variables flags loaded started_with
      loaded_file starts
