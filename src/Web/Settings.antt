-- ===== src/Web/Settings.antt =====
-- pkg/web/security.go: the limits of the settings and their defaults.
use nexus_link.Base.{ℕ, ◌*◌, ◌≤◌, ◌≡◌, refl}
use nexus_link.Base.{true, arith, ltb, leb, if◌then◌else◌}
use nexus_link.Base.{Eq-nat, Eq-string, Eq-bytes, Eq-pair}
use nexus_link.Web.State.{minute, SecuritySettings}

unfoldable pub default_security_settings : SecuritySettings
default_security_settings = record {
  session_timeout_min = 30;
  rate_limit_max = 5;
  rate_limit_lock_min = 15;
  csrf_protection = true;
  security_headers = true;
  http_only_cookie = true;
  same_site_cookie = true;
  custom_csp = "";
}

abbrev pub at_least : ℕ → ℕ → ℕ
at_least low n = if ltb n low then low else n

abbrev pub at_most : ℕ → ℕ → ℕ
at_most high n = if ltb high n then high else n

-- the corrections of handleSecurity to the settings that it is sent
unfoldable pub corrected : SecuritySettings → SecuritySettings
corrected sec = record sec {
  session_timeout_min = at_most 1440 (at_least 1 sec.session_timeout_min);
  rate_limit_max = at_most 100 (at_least 1 sec.rate_limit_max);
  rate_limit_lock_min = at_most 1440 (at_least 1 sec.rate_limit_lock_min);
}

abbrev pub or_default : ℕ → ℕ → ℕ
or_default d m = if leb m 0 then d else m

unfoldable pub get_session_timeout : SecuritySettings → ℕ
get_session_timeout sec = or_default 30 sec.session_timeout_min * minute

unfoldable pub get_rate_limit_max : SecuritySettings → ℕ
get_rate_limit_max sec = or_default 5 sec.rate_limit_max

unfoldable pub get_rate_limit_lock_min : SecuritySettings → ℕ
get_rate_limit_lock_min sec = or_default 15 sec.rate_limit_lock_min

bounded :
    (high n : ℕ)
    → 1 ≤ high
    → at_most high (at_least 1 (at_most high (at_least 1 n))) ≡ at_most high (at_least 1 n)
bounded high n h = ground arith

-- Settings that the panel takes are in range: a session lasts from a minute to a day, from 1 to 100
-- failures lock, for a minute to a day; settings that were corrected once are taken as they are.
pub corrected_range :
    (sec : SecuritySettings)
    → let s = corrected sec in
      (minute ≤ get_session_timeout s)
      × (get_session_timeout s ≤ 1440 * minute)
      × (1 ≤ get_rate_limit_max s)
      × (get_rate_limit_max s ≤ 100)
      × (1 ≤ get_rate_limit_lock_min s)
      × (get_rate_limit_lock_min s ≤ 1440)
      × (corrected s ≡ s)
unfolding corrected get_session_timeout get_rate_limit_max get_rate_limit_lock_min
corrected_range sec = (
  ground arith,
  ground arith,
  ground arith,
  ground arith,
  ground arith,
  ground arith,
  rw
      (
        bounded 1440 sec.session_timeout_min (omega arith),
        bounded 100 sec.rate_limit_max (omega arith),
        bounded 1440 sec.rate_limit_lock_min (omega arith),
      )
      refl,
)
