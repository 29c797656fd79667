-- ===== src/Config/Precedence.antt =====
-- Which settings win, and what a configuration that is taken satisfies.
use nexus_link.Base.{ℕ, ◌<◌, String, ◌≡◌, refl, sym, ap, ◌∙◌, inl, inr}
use nexus_link.Base.{Bool, true, false, not, ◌&&◌, ◌||◌, Option, none, some, arith, if◌then◌else◌}
use nexus_link.Base.{Bool-cases, ◌==◌, Eq-nat, Eq-string, Eq-bytes, Eq-pair}
use mathlib.Core.Path.{subst}
use nexus_link.Config.Load.{
  ClientConfig, text_or, with_defaults, conflicts, is_local, load_client_config,
}
use nexus_link.Config.Startup.{
  Flags, Env, apply_env, apply_flags, select_tunnel, settle, base_config, start_config,
}

default_ip : (cfg : ClientConfig) → ((with_defaults cfg).server_ip == "") ≡ false
unfolding with_defaults
default_ip cfg = elim (Bool-cases (cfg.server_ip == "")) [ inl q ↦ rw q refl | inr q ↦ rw q q ]

default_port : (cfg : ClientConfig) → 0 < (with_defaults cfg).server_port
unfolding with_defaults
default_port cfg = ground arith

none_loaded : (resolves : String → ℕ → Bool) → load_client_config resolves none ≡ none
unfolding load_client_config
none_loaded resolves = refl

abbrev IsValid : (String → ℕ → Bool) → ClientConfig → Type 0
IsValid resolves cfg =
    ((cfg.server_ip == "") ≡ false)
    × (0 < cfg.server_port)
    × ((is_local cfg.server_ip || resolves cfg.server_ip cfg.server_port) ≡ true)
    × (conflicts cfg.server_port cfg.proxies ≡ false)

-- A client configuration that is loaded has a server address and a port that are set, an address
-- that is local or resolves, and no tunnel on the port of the server.
pub load_client_config_valid :
    (resolves : String → ℕ → Bool) (file : Option ClientConfig) (cfg : ClientConfig)
    → load_client_config resolves file ≡ some cfg
    → ((cfg.server_ip == "") ≡ false)
      × (0 < cfg.server_port)
      × ((is_local cfg.server_ip || resolves cfg.server_ip cfg.server_port) ≡ true)
      × (conflicts cfg.server_port cfg.proxies ≡ false)
unfolding load_client_config
load_client_config_valid resolves none cfg h =
    absurd (ground (arith, sym (none_loaded resolves) ∙ h))
load_client_config_valid resolves (some file) cfg h =
    let c = with_defaults file in
    elim (Bool-cases (not (is_local c.server_ip) && not (resolves c.server_ip c.server_port))) [
      | inl q ↦
          let told : load_client_config resolves (some file) ≡ none = rw q refl in
          absurd (ground (arith, sym told ∙ h))
      | inr q ↦ elim (Bool-cases (conflicts c.server_port c.proxies)) [
        | inl r ↦
            let told : load_client_config resolves (some file) ≡ none = rw (q, r) refl in
            absurd (ground (arith, sym told ∙ h))
        | inr r ↦
            let told : load_client_config resolves (some file) ≡ some c = rw (q, r) refl in
            let same : c ≡ cfg = ground (arith, sym told ∙ h) in
            subst (λ x. IsValid resolves x) same
              (default_ip file, default_port file, ground (arith, q), r)
      ]
    ]

-- what is selected differs in the tunnels only
select_tunnel_same :
    (id : String) (c cfg : ClientConfig)
    → select_tunnel id c ≡ some cfg
    → (cfg.server_ip ≡ c.server_ip) × (cfg.token ≡ c.token)
unfolding select_tunnel
select_tunnel_same id c cfg h = (ground (arith, h), ground (arith, h))

settle_same :
    (f : Flags) (c cfg : ClientConfig)
    → settle f c ≡ some cfg
    → (cfg.server_ip ≡ text_or c.server_ip "127.0.0.1")
      × (cfg.token ≡ c.token)
      × ((c.token == "") ≡ false)
unfolding with_defaults settle
settle_same f c cfg h = elim (Bool-cases (c.token == "")) [
  | inl q ↦ let told : settle f c ≡ none = rw q refl in absurd (ground (arith, sym told ∙ h))
  | inr q ↦
      let told : settle f c ≡ select_tunnel f.tunnel_id (with_defaults c) = rw q refl in
      let (i, t) = select_tunnel_same f.tunnel_id (with_defaults c) cfg (sym told ∙ h) in (i, t, q)
]

texts :
    (a b c : String)
    → text_or (text_or a (text_or b c)) "127.0.0.1" ≡ text_or a (text_or b (text_or c "127.0.0.1"))
texts a b c = elim (Bool-cases (a == "")) [
  | inl p ↦ elim (Bool-cases (b == "")) [ inl q ↦ rw (p, q) refl | inr q ↦ rw (p, q, q) refl ]
  | inr p ↦ rw (p, p) refl
]

flag_token :
    (a api c : String)
    → (if not (a == "") && api == "" then a else c) ≡ text_or (if api == "" then a else "") c
flag_token a api c = elim (Bool-cases (api == "")) [
  | inl p ↦ elim (Bool-cases (a == "")) [ inl q ↦ rw (p, q) refl | inr q ↦ rw (p, q) refl ]
  | inr p ↦ elim (Bool-cases (a == "")) [ inl q ↦ rw (p, q) refl | inr q ↦ rw (p, q) refl ]
]

started :
    (resolves : String → ℕ → Bool) (file : Option (Option ClientConfig)) (env : Env) (f : Flags)
    (base : ClientConfig)
    → base_config resolves file env f ≡ some base
    → start_config resolves file env f ≡ settle f (apply_flags f (apply_env env base))
unfolding start_config
started resolves file env f base b =
    ap {A = Option ClientConfig}
      (λ o. elim o as (λ _. Option ClientConfig) [
        | none ↦ none
        | some cfg ↦ settle f (apply_flags f (apply_env env cfg))
      ])
      b

-- A client that starts from a file or from overrides uses, for the address of the server, the first
-- that is set of its flag, the environment, the file and the default, and for the token the first
-- of its flag, the environment and the file; the flag is not used as a token when an API address is
-- given. The token is not empty.
pub start_config_first :
    (resolves : String → ℕ → Bool) (file : Option (Option ClientConfig)) (env : Env) (f : Flags)
    (base cfg : ClientConfig)
    → base_config resolves file env f ≡ some base
    → start_config resolves file env f ≡ some cfg
    → (cfg.server_ip
        ≡ text_or f.server (text_or (env "NEXUSLINK_SERVER") (text_or base.server_ip "127.0.0.1")))
      × (cfg.token
          ≡ text_or
              (if f.api == "" then f.token else "")
              (text_or (env "NEXUSLINK_TOKEN") base.token))
      × ((cfg.token == "") ≡ false)
unfolding apply_env apply_flags
start_config_first resolves file env f base cfg b h =
    let c = apply_flags f (apply_env env base) in
    let told : start_config resolves file env f ≡ settle f c = started resolves file env f base b in
    let (i, t, n) = settle_same f c cfg (sym told ∙ h) in
    (
      i ∙ texts f.server (env "NEXUSLINK_SERVER") base.server_ip,
      t ∙ flag_token f.token f.api (text_or (env "NEXUSLINK_TOKEN") base.token),
      ap (λ x. x == "") t ∙ n,
    )
