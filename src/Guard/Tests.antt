-- ===== src/Guard/Tests.antt =====
-- The guard over a toy of package net: addresses are texts, and a range is one address.
use nexus_link.Base.{ℕ, ◌-◌, ◌≤◌, ◌<◌, String, ◌≡◌, refl, ◌↔◌}
use nexus_link.Base.{Bool, true, false, Option, some, List, [], ◌∷◌, arith}
use nexus_link.Base.{◌==◌, Eq-nat, Eq-string, Eq-bytes}
use nexus_link.Base.Dict.{lookup, insert}
use nexus_link.Guard.State.{
  ConnGuard, Addr, tcp, other, get_ip, is_loopback, at, new_conn_guard, check, is_banned,
  is_whitelisted, on_list, ban_for_bad_behavior, release, is_loopback,
}
use nexus_link.Guard.Admission.{Restricted, check_banned_refused, check_admits_iff, check_twice}
use nexus_link.Guard.Bans.{offences, offences_ban, release-check}
use nexus_link.Guard.Counts.{Call, checks, releases, bans_behavior, stats, run_calls, IsWithin}
use nexus_link.Guard.Limits.{run_calls-IsWithin}

abbrev parse : String → Option String
parse s = some s

abbrev inside : String → String → Bool
inside net ip = net == ip

abbrev guest : Addr
guest = tcp "10.0.0.7"

abbrev fresh : ConnGuard String
fresh = new_conn_guard

port_cut : get_ip (other "10.0.0.7:4000") ≡ "10.0.0.7"
unfolding get_ip
port_cut = refl

-- from the start three offences at most one nanosecond apart ban for a minute
abbrev offended : ConnGuard String
offended = offences parse inside fresh (1 ∷ 2 ∷ []) guest

guest-Restricted : Restricted parse inside fresh guest
unfolding get_ip is_whitelisted on_list is_loopback new_conn_guard
guest-Restricted = (refl, refl)

offences_ban_test :
    (offended.blacklist ≡ fresh.blacklist)
    × (is_banned (ban_for_bad_behavior parse inside offended 3 guest) 4 "10.0.0.7" ≡ true)
    × (at (ban_for_bad_behavior parse inside offended 3 guest).misbehavior "10.0.0.7" ≡ 0)
unfolding get_ip new_conn_guard lookup
offences_ban_test = offences_ban parse inside fresh (1 ∷ 2 ∷ []) 3 4 guest guest-Restricted.0 refl

abbrev banned : ConnGuard String
banned = ban_for_bad_behavior parse inside offended 3 guest

banned-Restricted : Restricted parse inside banned guest
unfolding get_ip is_whitelisted on_list is_loopback new_conn_guard ban_for_bad_behavior offences
    lookup insert
banned-Restricted = (refl, refl)

refusal : check parse inside banned 1_000 guest ≡ (false, banned)
unfolding get_ip
refusal = check_banned_refused parse inside banned 1_000 guest banned-Restricted (
    unfold is_banned ban_for_bad_behavior offences new_conn_guard lookup insert on_list
      is_whitelisted in
    refl)

check_admits_iff_example : ((check parse inside fresh 5 guest).0 ≡ true) ↔ (
    (is_banned fresh 5 (get_ip guest) ≡ false)
    × ((last : ℕ)
        → lookup (get_ip guest) fresh.last_conn ≡ some last
        → fresh.min_interval ≤ 5 - last)
    × (at fresh.conn_count (get_ip guest) < fresh.max_conn))
check_admits_iff_example = check_admits_iff parse inside fresh 5 guest guest-Restricted

admitted : (check parse inside fresh 5 guest).0 ≡ true
unfolding check get_ip is_whitelisted on_list is_loopback new_conn_guard lookup
admitted = refl

check_twice_test : (check parse inside (check parse inside fresh 5 guest).1 1_000 guest).0 ≡ false
check_twice_test =
    check_twice parse inside fresh 5 1_000 guest guest-Restricted admitted
      (unfold new_conn_guard in omega arith)

release-check_test :
    at (release (check parse inside fresh 5 guest).1 guest).conn_count "10.0.0.7"
    ≡ at fresh.conn_count "10.0.0.7"
release-check_test = release-check parse inside fresh 5 guest "10.0.0.7" guest-Restricted admitted

fresh-IsWithin : IsWithin parse inside fresh
unfolding new_conn_guard lookup
fresh-IsWithin = record {
  open_connections = λ ip l. omega arith;
  threshold_positive = omega arith;
  below_threshold = λ ip. omega arith;
}

abbrev calls : List (Call parse inside)
calls = checks 5 guest ∷ bans_behavior 6 guest ∷ checks 7 guest ∷ releases guest ∷ stats 9 ∷ []

run_calls-IsWithin_test : IsWithin parse inside (run_calls parse inside fresh calls)
run_calls-IsWithin_test = run_calls-IsWithin parse inside fresh calls fresh-IsWithin
