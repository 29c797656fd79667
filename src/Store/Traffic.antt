-- ===== src/Store/Traffic.antt =====
-- Traffic that is reported for clients is added up.
use nexus_link.Base.{ℕ, ◌+◌, String, ◌≡◌, refl, ◌∙◌, inl, inr}
use nexus_link.Base.{
  true, false, ◌&&◌, Option, none, some, List, [], ◌∷◌, arith, nat_eq, if◌then◌else◌,
}
use nexus_link.Base.{Bool-cases, Option-cases, ◌==◌, Eq-nat, Eq-string, Eq-bytes}
use nexus_link.Base.Tables.{find, find_holds, find-update}
use nexus_link.Store.Tables.{Client, Store}
use nexus_link.Store.Clients.{has_name, add_traffic}

-- the counters of a client
unfoldable pub traffic_of : String → Store → Option (ℕ × ℕ)
traffic_of name s = elim (find (has_name name) s.clients) [
  | none ↦ none
  | some c ↦ some (c.bytes_in, c.bytes_out)
]

-- what reports add to the counters of a client
unfoldable pub total_of : String → List (String × (ℕ × ℕ)) → ℕ × ℕ
total_of name [] = (0, 0)
total_of name ((other, (i, o)) ∷ rs) =
    let (i', o') = total_of name rs in if other == name then (i + i', o + o') else (i', o')

unfoldable pub report_all : String → List (String × (ℕ × ℕ)) → Store → Store
unfolding add_traffic
report_all now [] s = s
report_all now ((name, (i, o)) ∷ rs) s = report_all now rs (add_traffic false now name i o s).1

traffic_of-add :
    (now name other : String) (i o : ℕ) (s : Store) (c : Client)
    → find (has_name other) s.clients ≡ some c
    → traffic_of other (add_traffic false now name i o s).1
      ≡ some
          (if name == other then (c.bytes_in + i, c.bytes_out + o) else (c.bytes_in, c.bytes_out))
unfolding traffic_of add_traffic
traffic_of-add now name other i o s c h = elim (Bool-cases (nat_eq i 0 && nat_eq o 0)) [
  | inl q ↦ rw (q, add_traffic) (rw (h, traffic_of) (ground (arith, q)))
  | inr q ↦
      let f : Client → Client = λ c. record c {
        bytes_in = c.bytes_in + i;
        bytes_out = c.bytes_out + o;
        updated_at = now;
      } in
      let found : (c.name == other) ≡ true = find_holds (has_name other) s.clients c h in
      rw (q, add_traffic)
        (rw (find-update (has_name name) (has_name other) f s.clients (λ c. refl), h, traffic_of)
          (ground (
            arith,
            found,
            Eq-string.same_iff c.name other,
            Eq-string.same_iff c.name name,
            Eq-string.same_iff name other,
          )))
]

traffic_of-add_traffic :
    (now name other : String) (i o a b : ℕ) (s : Store)
    → traffic_of other s ≡ some (a, b)
    → traffic_of other (add_traffic false now name i o s).1
      ≡ some (if name == other then (a + i, b + o) else (a, b))
unfolding traffic_of
traffic_of-add_traffic now name other i o a b s h =
    elim (Option-cases (find (has_name other) s.clients)) [
      | inr e ↦ ground (arith, e, h)
      | inl (c, e) ↦
          let (p, q) : (c.bytes_in ≡ a) × (c.bytes_out ≡ b) = ground (arith, e, h) in
          traffic_of-add now name other i o s c e ∙ rw (p, q) refl
    ]

-- Reports of traffic, of whatever clients and in whatever order, that all reach the database add to the
-- counters of a client exactly the sum of the reports that name it.
pub traffic_of-report_all :
    (now name : String) (rs : List (String × (ℕ × ℕ))) (s : Store) (a b : ℕ)
    → traffic_of name s ≡ some (a, b)
    → traffic_of name (report_all now rs s)
      ≡ some (a + (total_of name rs).0, b + (total_of name rs).1)
unfolding report_all total_of
traffic_of-report_all now name [] s a b h = h ∙ ground arith
traffic_of-report_all now name ((other, (i, o)) ∷ rs) s a b h =
    let first = traffic_of-add_traffic now other name i o a b s h in
    let s1 = (add_traffic false now other i o s).1 in
    elim (Bool-cases (other == name)) [
      | inl q ↦
          traffic_of-report_all now name rs s1 (a + i) (b + o) (first ∙ rw q refl)
          ∙ ground (arith, q)
      | inr q ↦ traffic_of-report_all now name rs s1 a b (first ∙ rw q refl) ∙ ground (arith, q)
    ]
