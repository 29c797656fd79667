-- ===== src/Client/Accounting.antt =====
-- What a report leaves in the counters.
use nexus_link.Base.{ℕ, ◌+◌, ◌^◌, ◌<◌, ◌≡◌, refl, ◌∙◌, inl, inr}
use nexus_link.Base.{true, ◌&&◌, some, List, [], ◌∷◌, arith, nat_eq}
use nexus_link.Base.{Bool-cases, Eq-nat, Eq-string, Eq-bytes, Eq-pair}
use nexus_link.Base.Word.{u64}
use nexus_link.Client.Report.{Counters, total_in, total_out, reset, report_traffic}

-- t added up once for each tunnel
unfoldable pub each : List Counters → ℕ → ℕ
each [] t = 0
each (p ∷ ps) t = t + each ps t

total_in-reset :
    (i o : ℕ) (ps : List Counters)
    → i < 2 ^ 64
    → u64 (total_in (reset i o ps) + each ps i) ≡ u64 (total_in ps)
unfolding total_in reset each
total_in-reset i o [] h = refl
total_in-reset i o (p ∷ ps) h = omega (arith, total_in-reset i o ps h)

total_out-reset :
    (i o : ℕ) (ps : List Counters)
    → o < 2 ^ 64
    → u64 (total_out (reset i o ps) + each ps o) ≡ u64 (total_out ps)
unfolding total_out reset each
total_out-reset i o [] h = refl
total_out-reset i o (p ∷ ps) h = omega (arith, total_out-reset i o ps h)

total_in_bound : (ps : List Counters) → total_in ps < 2 ^ 64
unfolding total_in
total_in_bound [] = omega arith
total_in_bound (p ∷ ps) = omega arith

total_out_bound : (ps : List Counters) → total_out ps < 2 ^ 64
unfolding total_out
total_out_bound [] = omega arith
total_out_bound (p ∷ ps) = omega arith

accepted :
    (ps : List Counters) (i o : ℕ)
    → (report_traffic true true ps).0 ≡ some (i, o)
    → (i ≡ total_in ps)
      × (o ≡ total_out ps)
      × ((report_traffic true true ps).1 ≡ reset (total_in ps) (total_out ps) ps)
unfolding report_traffic
accepted ps i o h = elim (Bool-cases (nat_eq (total_in ps) 0 && nat_eq (total_out ps) 0)) [
  | inl q ↦ ground (arith, q, h)
  | inr q ↦ (ground (arith, q, h), ground (arith, q, h), rw (q, report_traffic) refl)
]

-- After a report that was accepted the counters, with the reported totals added once for each
-- tunnel, are the totals that were reported: with one tunnel nothing is left, with more the totals
-- are taken away as often as there are tunnels.
pub total-report_traffic :
    (ps : List Counters) (i o : ℕ)
    → (report_traffic true true ps).0 ≡ some (i, o)
    → let ps' = (report_traffic true true ps).1 in
      (u64 (total_in ps' + each ps i) ≡ i) × (u64 (total_out ps' + each ps o) ≡ o)
total-report_traffic ps i o h =
    let (ei, eo, after) = accepted ps i o h in
    let bi = total_in_bound ps in
    let bo = total_out_bound ps in
    rw (after, ei, eo)
      (
        total_in-reset (total_in ps) (total_out ps) ps bi ∙ omega (arith, bi),
        total_out-reset (total_in ps) (total_out ps) ps bo ∙ omega (arith, bo),
      )
