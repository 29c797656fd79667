-- ===== src/Client/Tests.antt =====
-- Reports of one tunnel and of two; a table of tunnels that is shut down.
use nexus_link.Base.{ℕ, ◌+◌, ◌-◌, ◌^◌, String, ◌≡◌, refl}
use nexus_link.Base.{true, false, none, some, List, [], ◌∷◌, if◌then◌else◌}
use nexus_link.Base.{◌==◌, Eq-nat, Eq-string, Eq-bytes, Eq-pair}
use nexus_link.Base.{any}
use nexus_link.Base.Dict.{lookup, insert, remove}
use nexus_link.Base.Word.{u64}
use nexus_link.Client.Backends.{UdpSide, close_all, close_conn, shutdown, stop}
use nexus_link.Client.Registration.{
  ProxyConfig, RegisterAnswer, rejected, accepted, Start, started, Table, new_side, on_answer,
  start_side, register_proxy, register_all, sync_and_register, handle_close_proxy, shutdown_side,
  shutdown_proxy, with_row, shutdown_proxies,
}
use nexus_link.Client.Reconnect.{sync_and_register-shutdown, has_channel, shutdown_proxies_twice}
use nexus_link.Client.Report.{Counters, total_in, total_out, reset, report_traffic}
use nexus_link.Client.Accounting.{each, total-report_traffic}

abbrev counters : ℕ → ℕ → Counters
counters i o = record { bytes_in = i; bytes_out = o }

abbrev two : List Counters
two = counters 100 10 ∷ counters 50 0 ∷ []

-- the first of two tunnels goes below zero
two_tunnels :
    (report_traffic true true two).1
    ≡ counters (2 ^ 64 - 50) 0 ∷ counters (2 ^ 64 - 100) (2 ^ 64 - 10) ∷ []
unfolding report_traffic reset total_in total_out
two_tunnels = refl

total-report_traffic_test :
    (u64 (total_in (report_traffic true true two).1 + each two 150) ≡ 150)
    × (u64 (total_out (report_traffic true true two).1 + each two 10) ≡ 10)
total-report_traffic_test =
    total-report_traffic two 150 10 (unfold report_traffic total_in total_out in refl)

abbrev dns : ProxyConfig
dns = record { type = "udp"; port = 53; local_addr = "127.0.0.1"; local_port = 5353 }

abbrev answers : String → RegisterAnswer
answers name = if name == "dns" then accepted 40_000 else rejected

abbrev starts : String → Start
starts name = started

abbrev listed : List (String × ProxyConfig)
listed = ("dns", dns) ∷ ("other", dns) ∷ []

-- after the first connection, the tunnel that was accepted is there
registered_table :
    sync_and_register answers starts (some listed) [] []
    ≡ ("dns" ∷ "other" ∷ [], ("dns", record { config = dns; udp = some new_side }) ∷ [])
unfolding sync_and_register register_all register_proxy on_answer start_side lookup insert
registered_table = refl

abbrev busy : UdpSide
busy = record {
  sessions = (1 ∷ [], record { conn = 4; last_active = 0 }) ∷ [];
  sockets = 4 ∷ [];
  stopped = false;
}

abbrev table : Table
table = ("dns", record { config = dns; udp = some busy }) ∷ []

abbrev after_shutdown : Table
after_shutdown =
    ("dns", record { config = dns; udp = some (record new_side { stopped = true }) }) ∷ []

shut_down : shutdown_proxies table ≡ some after_shutdown
unfolding shutdown_proxies shutdown_proxy shutdown_side shutdown close_all close_conn with_row
shut_down = refl

sync_and_register-shutdown_example :
    any (λ n. n == "dns") (sync_and_register answers starts (some listed) listed after_shutdown).0
    ≡ false
sync_and_register-shutdown_example =
    sync_and_register-shutdown answers starts (some listed) listed "dns" table after_shutdown
      (unfold lookup in refl) shut_down

shutdown_proxies_twice_test : shutdown_proxies after_shutdown ≡ none
shutdown_proxies_twice_test =
    shutdown_proxies_twice table after_shutdown (unfold has_channel in refl) shut_down

-- a tunnel that the server closes leaves its backend socket open
close_leaks_test : handle_close_proxy "dns" table ≡ (some (record busy { stopped = true }), [])
unfolding handle_close_proxy stop lookup remove
close_leaks_test = refl
