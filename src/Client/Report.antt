-- ===== src/Client/Report.antt =====
-- cmd/client/main.go: reportTraffic, on the counters of the tunnels, which are int64 patterns.
-- Whether the report is configured, and whether the answer to it is a success, are arguments.
use nexus_link.Base.{ℕ}
use nexus_link.Base.{Bool, not, ◌&&◌, Option, none, some, List, [], ◌∷◌, nat_eq, if◌then◌else◌}
use nexus_link.Base.{Eq-nat, Eq-string, Eq-bytes, Eq-pair}
use nexus_link.Base.Word.{add64, sub64}

pub record Counters : Type 0 where
  pub bytes_in : ℕ
  pub bytes_out : ℕ

unfoldable pub total_in : List Counters → ℕ
total_in [] = 0
total_in (p ∷ ps) = add64 p.bytes_in (total_in ps)

unfoldable pub total_out : List Counters → ℕ
total_out [] = 0
total_out (p ∷ ps) = add64 p.bytes_out (total_out ps)

-- the reset of what was reported
unfoldable pub reset : ℕ → ℕ → List Counters → List Counters
reset i o [] = []
reset i o (p ∷ ps) =
    record { bytes_in = sub64 p.bytes_in i; bytes_out = sub64 p.bytes_out o } ∷ reset i o ps

-- the totals that are sent, if there are any, and the counters after the answer
unfoldable pub report_traffic : Bool → Bool → List Counters → Option (ℕ × ℕ) × List Counters
unfolding reset total_in total_out
report_traffic configured accepted ps =
    let i = total_in ps in
    let o = total_out ps in
    if not configured
    then (none, ps)
    else if nat_eq i 0 && nat_eq o 0
    then (none, ps)
    else (some (i, o), if accepted then reset i o ps else ps)
