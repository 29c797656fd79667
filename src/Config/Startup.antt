-- ===== src/Config/Startup.antt =====
-- cmd/client/main.go: hasEnvOrFlagOverride, applyEnvOverrides and what main makes of the file, the
-- environment and the flags before it connects. The environment is a function of the names; "" is a
-- variable or a flag that is not set, and port 0 a flag that is not set.
use Prim.Native.Char.{code}
use nexus_link.Base.{ℕ, ◌+◌, ◌-◌, ◌*◌, String}
use nexus_link.Base.{Bool, not, ◌&&◌, ◌||◌, Option, none, some, ltb, leb, nat_eq, if◌then◌else◌}
use nexus_link.Base.{◌==◌, Eq-nat, Eq-string, Eq-bytes, Eq-pair}
use nexus_link.Base.{length, keep}
use nexus_link.Store.Users.{append_text}
use nexus_link.Config.Load.{
  ClientConfig, text_or, port_or, new_client_config, with_defaults, load_client_config,
}

pub record Flags : Type 0 where
  pub server : String
  pub port : ℕ
  pub token : String
  pub api : String
  pub tunnel_id : String

-- strconv.Atoi of a text without a sign or with a plus
unfoldable pub digits_from : ℕ → String → Option ℕ
digits_from n String.[] = some n
digits_from n (String.◌∷◌ c s) =
    let rest = digits_from (10 * n + (code c - b'0')) s in
    if leb b'0' (code c) && leb (code c) b'9' then rest else none

unfoldable pub unsigned : String → Option ℕ
unfolding digits_from
unsigned String.[] = none
unsigned (String.◌∷◌ c s) = digits_from 0 (String.◌∷◌ c s)

unfoldable pub atoi : String → Option ℕ
unfolding unsigned
atoi String.[] = none
atoi (String.◌∷◌ c s) = if nat_eq (code c) b'+' then unsigned s else unsigned (String.◌∷◌ c s)

-- the port of a text, if it is one
unfoldable pub port_of : String → Option ℕ
unfolding atoi
port_of s = elim (atoi s) [ none ↦ none | some p ↦ if ltb 0 p && leb p 65535 then some p else none ]

abbrev pub Env : Type 0
Env = String → String

unfoldable pub has_override : Env → Flags → Bool
has_override env f =
    not (env "NEXUSLINK_SERVER" == "")
    || not (env "NEXUSLINK_PORT" == "")
    || not (env "NEXUSLINK_TOKEN" == "")
    || not (f.server == "")
    || not (nat_eq f.port 0)
    || not (f.token == "")

abbrev is_yes : String → Bool
is_yes v = v == "1" || v == "true" || v == "yes"

unfoldable pub apply_env : Env → ClientConfig → ClientConfig
unfolding port_of
apply_env env cfg = record cfg {
  server_ip = text_or (env "NEXUSLINK_SERVER") cfg.server_ip;
  server_port = elim (port_of (env "NEXUSLINK_PORT")) [ some p ↦ p | none ↦ cfg.server_port ];
  token = text_or (env "NEXUSLINK_TOKEN") cfg.token;
  tls_enable = is_yes (env "NEXUSLINK_TLS_ENABLE") || cfg.tls_enable;
  tls_ca = text_or (env "NEXUSLINK_TLS_CA") cfg.tls_ca;
  tls_insecure = is_yes (env "NEXUSLINK_TLS_INSECURE") || cfg.tls_insecure;
}

unfoldable pub apply_flags : Flags → ClientConfig → ClientConfig
apply_flags f cfg = record cfg {
  server_ip = text_or f.server cfg.server_ip;
  server_port = port_or f.port cfg.server_port;
  token = if not (f.token == "") && f.api == "" then f.token else cfg.token;
}

-- only the tunnel of the flag -id, if that is set; `none` when there is none
unfoldable pub select_tunnel : String → ClientConfig → Option ClientConfig
unfolding append_text
select_tunnel id cfg =
    let chosen = keep (λ e. e.0 == id || e.0 == append_text "tunnel_" id) cfg.proxies in
    if id == ""
    then some cfg
    else if nat_eq (length chosen) 0
    then none
    else some (record cfg { proxies = chosen })

-- the checks and defaults after the overrides; `none` ends the program
unfoldable pub settle : Flags → ClientConfig → Option ClientConfig
unfolding with_defaults select_tunnel
settle f cfg = if cfg.token == "" then none else select_tunnel f.tunnel_id (with_defaults cfg)

-- where the configuration comes from when it is not fetched: the file, if there is one
unfoldable pub base_config :
    (String → ℕ → Bool) → Option (Option ClientConfig) → Env → Flags → Option ClientConfig
unfolding load_client_config has_override new_client_config
base_config resolves (some file) env f = load_client_config resolves file
base_config resolves none env f = if has_override env f then some new_client_config else none

-- main up to the connection, when the configuration is not fetched from the API
unfoldable pub start_config :
    (String → ℕ → Bool) → Option (Option ClientConfig) → Env → Flags → Option ClientConfig
unfolding base_config apply_env apply_flags settle
start_config resolves file env f = elim (base_config resolves file env f) [
  | none ↦ none
  | some cfg ↦ settle f (apply_flags f (apply_env env cfg))
]
