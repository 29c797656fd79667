-- ===== src/Server/Alerts.antt =====
-- The alert of a client that goes over its traffic limit.
use nexus_link.Base.{refl}
use nexus_link.Base.{ℕ, suc, ◌+◌, ◌≤◌, String, ◌≡◌, inl, inr}
use nexus_link.Base.{Bool, true, false, ◌||◌, some, List, [], ◌∷◌, ◌++◌, arith, if◌then◌else◌}
use nexus_link.Base.{Bool-cases, ◌==◌, Eq-nat, Eq-string, Eq-bytes, Eq-pair}
use nexus_link.Base.Dict.{get_or, lookup, lookup-insert, lookup-insert_self}
use nexus_link.Base.Word.{add64, ltb_s64, leb_s64}
use nexus_link.Server.State.{Server}
use nexus_link.Server.Traffic.{
  Alert, client_max_traffic, client_total_traffic, check_traffic_limit, counted, add_client_traffic,
}

-- additions of traffic: whether the database fails, the client, and the two amounts
unfoldable pub run_traffic : List (Bool × (String × (ℕ × ℕ))) → Server → Server × List Alert
unfolding add_client_traffic
run_traffic [] s = (s, [])
run_traffic ((f, (name, (i, o))) ∷ ts) s =
    let (s1, out) = add_client_traffic f name i o s in
    let (s2, out') = run_traffic ts s1 in (s2, out ++ out')

unfoldable pub alerts_of : String → List Alert → ℕ
alerts_of name [] = 0
alerts_of name ((n, d) ∷ out) =
    let rest = alerts_of name out in if n == name then suc rest else rest

alerts_of-append :
    (name : String) (xs ys : List Alert)
    → alerts_of name (xs ++ ys) ≡ alerts_of name xs + alerts_of name ys
unfolding alerts_of
alerts_of-append name [] ys = omega arith
alerts_of-append name ((n, d) ∷ xs) ys = ground (arith, alerts_of-append name xs ys)

-- how many alerts are still due
unfoldable due : String → Server → ℕ
due name s = if get_or (lookup name s.notified_limit) false then 0 else 1

check-due :
    (f : Bool) (name other : String) (s : Server)
    → let (s1, out) = check_traffic_limit f other s in alerts_of name out + due name s1 ≡ due name s
unfolding check_traffic_limit alerts_of due
check-due f name other s =
    ground (arith, lookup-insert other name true s.notified_limit, Eq-string.same_iff other name)

add-due :
    (f : Bool) (name other : String) (i o : ℕ) (s : Server)
    → let (s1, out) = add_client_traffic f other i o s in
      alerts_of name out + due name s1 ≡ due name s
unfolding add_client_traffic alerts_of due
add-due f name other i o s = elim (Bool-cases (other == "" || other == "default")) [
  | inl q ↦ rw (q, add_client_traffic) (omega arith)
  | inr q ↦
      rw (q, add_client_traffic)
        (elim (Bool-cases (ltb_s64 0 (add64 i o))) [
          | inl r ↦ rw (r, add_client_traffic) (check-due f name other (counted other i o s))
          | inr r ↦ rw (r, add_client_traffic) (omega arith)
        ])
]

run-due :
    (ts : List (Bool × (String × (ℕ × ℕ)))) (name : String) (s : Server)
    → alerts_of name (run_traffic ts s).1 + due name (run_traffic ts s).0 ≡ due name s
unfolding run_traffic alerts_of
run-due [] name s = omega arith
run-due ((f, (other, (i, o))) ∷ ts) name s =
    let (s1, out) = add_client_traffic f other i o s in
    let (s2, out') = run_traffic ts s1 in
    omega (arith, alerts_of-append name out out', add-due f name other i o s, run-due ts name s1)

-- However much traffic is counted, there is at most one alert for a client, and none for one that has
-- had its alert.
pub alerts_of-run_traffic :
    (ts : List (Bool × (String × (ℕ × ℕ)))) (name : String) (s : Server)
    → alerts_of name (run_traffic ts s).1
      ≤ (if get_or (lookup name s.notified_limit) false then 0 else 1)
unfolding due
alerts_of-run_traffic ts name s = omega (arith, run-due ts name s)

check-over :
    (f : Bool) (name : String) (s : Server)
    → leb_s64 (client_max_traffic f name s) 0 ≡ false
    → ltb_s64 (client_total_traffic name s) (client_max_traffic f name s) ≡ false
    → lookup name (check_traffic_limit f name s).0.notified_limit ≡ some true
unfolding check_traffic_limit
check-over f name s l t =
    rw (l, check_traffic_limit)
      (rw (t, check_traffic_limit)
        (elim (Bool-cases (get_or (lookup name s.notified_limit) false)) [
          | inl q ↦ rw (q, check_traffic_limit) (ground (arith, q))
          | inr q ↦ rw (q, check_traffic_limit) (lookup-insert_self name true s.notified_limit)
        ]))

over :
    (f : Bool) (name : String) (s : Server)
    → leb_s64 (client_max_traffic f name s) 0 ≡ false
    → ltb_s64 (client_total_traffic name s) (client_max_traffic f name s) ≡ false
    → get_or (lookup name s.notified_limit) false ≡ false
    → (check_traffic_limit f name s).1
      ≡ (name, (client_total_traffic name s, client_max_traffic f name s)) ∷ []
unfolding check_traffic_limit
over f name s l t n =
    rw (l, check_traffic_limit) (rw (t, check_traffic_limit) (rw (n, check_traffic_limit) refl))

-- The positive amount that takes a client's total to its positive limit gives one alert, with the
-- total and the limit, if the client has had none; whatever is counted after it gives no alert for
-- the client.
pub run_traffic-add_client_traffic :
    (f : Bool) (name : String) (i o : ℕ) (s : Server) (ts : List (Bool × (String × (ℕ × ℕ))))
    → (name == "" || name == "default") ≡ false
    → ltb_s64 0 (add64 i o) ≡ true
    → leb_s64 (client_max_traffic f name s) 0 ≡ false
    → ltb_s64 (client_total_traffic name (counted name i o s)) (client_max_traffic f name s) ≡ false
    → get_or (lookup name s.notified_limit) false ≡ false
    → let (s', out) = add_client_traffic f name i o s in
      (out
        ≡ (name, (client_total_traffic name (counted name i o s), client_max_traffic f name s))
          ∷ [])
      × (alerts_of name (run_traffic ts s').1 ≡ 0)
unfolding add_client_traffic client_max_traffic
run_traffic-add_client_traffic f name i o s ts n p l t first =
    let s1 = counted name i o s in
    let marked : lookup name (add_client_traffic f name i o s).0.notified_limit ≡ some true =
      rw (n, add_client_traffic) (rw (p, add_client_traffic) (check-over f name s1 l t)) in
    let none_left = alerts_of-run_traffic ts name (add_client_traffic f name i o s).0 in
    (
      rw (n, add_client_traffic) (rw (p, add_client_traffic) (over f name s1 l t first)),
      ground (arith, none_left, marked),
    )
