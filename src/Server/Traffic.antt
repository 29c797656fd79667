-- ===== src/Server/Traffic.antt =====
-- cmd/server/main.go: addClientTraffic, checkTrafficLimit, clientMaxTraffic and clientTotalTraffic. The
-- write of the store runs apart, and is its AddTraffic.
use nexus_link.Base.{ℕ, String}
use nexus_link.Base.{Bool, true, false, ◌||◌, Option, none, some, List, [], ◌∷◌, if◌then◌else◌}
use nexus_link.Base.{◌==◌, Eq-nat, Eq-string, Eq-bytes, Eq-pair}
use nexus_link.Base.Dict.{get_or, lookup, insert}
use nexus_link.Base.Word.{add64, ltb_s64, leb_s64}
use nexus_link.Store.Tables.{Client}
use nexus_link.Store.Clients.{get_client}
use nexus_link.Server.State.{Server}
use nexus_link.Server.Identity.{first_value}

-- a client over its limit: its name, its total and its limit
abbrev pub Alert : Type 0
Alert = String × (ℕ × ℕ)

abbrev pub stored_client : Bool → String → Server → Option Client
stored_client fault name s = elim s.store [
  | none ↦ none
  | some db ↦ get_or (get_client fault name db) none
]

unfoldable pub client_max_traffic : Bool → String → Server → ℕ
client_max_traffic fault name s = elim (stored_client fault name s) [
  | some c ↦ c.max_traffic_bytes
  | none ↦ elim (first_value (λ mc. mc.name == name) s.managed_by_token) [
    | some (t, mc) ↦ mc.max_traffic_bytes
    | none ↦ 0
  ]
]

unfoldable pub client_total_traffic : String → Server → ℕ
client_total_traffic name s = elim (lookup name s.client_traffic) [
  | some (i, o) ↦ add64 i o
  | none ↦ 0
]

unfoldable pub check_traffic_limit : Bool → String → Server → Server × List Alert
unfolding client_max_traffic client_total_traffic
check_traffic_limit fault name s =
    let limit = client_max_traffic fault name s in
    let total = client_total_traffic name s in
    if leb_s64 limit 0
    then (s, [])
    else if ltb_s64 total limit
    then (s, [])
    else if get_or (lookup name s.notified_limit) false
    then (s, [])
    else (
      record s { notified_limit = insert name true s.notified_limit },
      (name, (total, limit)) ∷ [],
    )

abbrev pub counted : String → ℕ → ℕ → Server → Server
counted name i o s =
    let (a, b) = get_or (lookup name s.client_traffic) (0, 0) in
    record s { client_traffic = insert name (add64 a i, add64 b o) s.client_traffic }

unfoldable pub add_client_traffic : Bool → String → ℕ → ℕ → Server → Server × List Alert
unfolding check_traffic_limit
add_client_traffic fault name i o s =
    if name == "" || name == "default"
    then (s, [])
    else let s1 = counted name i o s in
      if ltb_s64 0 (add64 i o) then check_traffic_limit fault name s1 else (s1, [])
