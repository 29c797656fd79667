-- ===== src/Store/Tests.antt =====
-- An empty database and a few rows.
use nexus_link.Base.{ℕ, ◌+◌, String, ◌≡◌, refl, ◌↔◌}
use nexus_link.Base.{true, false, not, ◌&&◌, none, some, List, [], ◌∷◌}
use nexus_link.Base.{◌==◌, Eq-nat, Eq-string, Eq-bytes, Eq-pair}
use nexus_link.Base.{keep}
use nexus_link.Base.Tables.{find, Distinct}
use nexus_link.Store.Tables.{Proxy, User, Store}
use nexus_link.Store.Clients.{get_client, get_client_by_token, add_client_with_owner}
use nexus_link.Store.Tunnels.{create_proxy, delete_proxy}
use nexus_link.Store.Users.{
  hash_password, append_text, create_user, set_user_status, update_user_password,
  verify_user_password, get_user_by_token,
}
use nexus_link.Store.Quota.{
  Change, adds, deletes, counts, run_changes, IsKeyed, run_changes-IsKeyed, get_client_by_token-add,
}
use nexus_link.Store.Traffic.{traffic_of, total_of, report_all, traffic_of-report_all}
use nexus_link.Store.Isolation.{
  Edit, creates, switches, run_edits, key_of, run_edits-Distinct, find-delete_proxy,
  list-set_proxy_enabled,
}
use nexus_link.Store.Login.{verify-set_user_status, verify-update_user_password, verify-create_user}

abbrev pub empty : Store
empty = record {
  clients = [];
  client_seq = 0;
  users = [];
  user_seq = 0;
  api_keys = [];
  settings = [];
  proxies = [];
  proxy_seq = 0;
}

abbrev changes : List Change
changes =
    adds false "t1" "edge" "secret" 5 0 "alice"
    ∷ adds false "t2" "edge" "other" 5 0 "bob"
    ∷ counts false "t3" "edge" 10 20
    ∷ deletes true "edge"
    ∷ []

run_changes-IsKeyed_example : IsKeyed (run_changes changes empty)
run_changes-IsKeyed_example = run_changes-IsKeyed changes empty (record { names = tt; tokens = tt })

abbrev with_edge : Store
with_edge = (add_client_with_owner false "t1" "edge" "secret" 5 100 "alice" empty).1

get_client_by_token-add_test :
    (get_client false "edge" empty ≡ some none)
    × (get_client_by_token false "secret" empty ≡ some none)
    × (get_client_by_token false "secret" with_edge
        ≡ some (
            some (record {
              id = 1;
              name = "edge";
              token = "secret";
              max_tunnels = 5;
              max_traffic_bytes = 100;
              bytes_in = 0;
              bytes_out = 0;
              status = "active";
              owner = "alice";
              created_at = "t1";
              updated_at = "t1";
            })))
get_client_by_token-add_test =
    get_client_by_token-add false "t1" "edge" "secret" 5 100 "alice" empty
      (unfold add_client_with_owner find in refl)

abbrev reports : List (String × (ℕ × ℕ))
reports = ("edge", (10, 1)) ∷ ("core", (5, 5)) ∷ ("edge", (0, 2)) ∷ []

traffic_of-report_all_test :
    traffic_of "edge" (report_all "t9" reports with_edge)
    ≡ some (0 + (total_of "edge" reports).0, 0 + (total_of "edge" reports).1)
traffic_of-report_all_test =
    traffic_of-report_all "t9" "edge" reports with_edge 0 0
      (unfold traffic_of add_client_with_owner find in refl)

abbrev web : String → Proxy
web client = record {
  id = 0;
  name = "web";
  type = "tcp";
  remote_port = 8080;
  local_addr = "127.0.0.1";
  local_port = 80;
  client_name = client;
  enabled = true;
  created_at = "";
}

abbrev edits : List Edit
edits =
    creates false "t1" (web "a")
    ∷ creates false "t1" (web "b")
    ∷ creates false "t1" (web "a")
    ∷ switches false "web" false
    ∷ []

run_edits-Distinct_example : Distinct key_of (run_edits edits empty).proxies
run_edits-Distinct_example = run_edits-Distinct edits empty tt

abbrev two_webs : Store
two_webs = run_edits edits empty

-- the tunnel of b goes with that of a
find-delete_proxy_test :
    find
      (λ p. p.client_name == "b" && p.name == "web")
      (delete_proxy false "web" two_webs).1.proxies
    ≡ none
find-delete_proxy_test = find-delete_proxy "web" "b" "web" two_webs

abbrev toy_digest : String → String
toy_digest s = s

abbrev with_bob : Store
with_bob = (create_user toy_digest false "t1" "salt" "tok" "bob" "pw" "user" empty).1

abbrev bob : User
bob = record {
  id = 1;
  username = "bob";
  password_hash = "saltpw";
  password_salt = "salt";
  role = "user";
  api_token = "tok";
  status = "active";
  created_at = "t1";
  updated_at = "t1";
}

verify-create_user_test :
    (verify_user_password toy_digest false "bob" "pw" with_bob ≡ (some bob, true))
    × (get_user_by_token false "tok" with_bob ≡ some (some bob))
unfolding hash_password append_text
verify-create_user_test =
    verify-create_user toy_digest false "t1" "salt" "tok" "bob" "pw" "user" empty
      (unfold create_user find in refl)

verify-set_user_status_test :
    verify_user_password toy_digest false "bob" "pw"
      (set_user_status false "t2" "bob" "disabled" with_bob).1
    ≡ (none, false)
verify-set_user_status_test =
    verify-set_user_status toy_digest "t2" "bob" "disabled" "pw" with_bob refl

verify-update_user_password_test :
    ((verify_user_password toy_digest false "bob" "pw"
        (update_user_password toy_digest false "t2" "pepper" "bob" "new" with_bob).1).1
      ≡ true)
    ↔ (hash_password toy_digest "pw" "pepper" ≡ hash_password toy_digest "new" "pepper")
verify-update_user_password_test =
    verify-update_user_password toy_digest "t2" "pepper" "bob" "new" "pw" with_bob bob
      (unfold create_user find hash_password append_text in refl) refl

list-set_proxy_enabled_test :
    (nexus_link.Store.Tunnels.list_proxies_by_client false "a"
      (nexus_link.Store.Tunnels.set_proxy_enabled false "web" false two_webs).1)
    ≡ some (keep (λ p. p.client_name == "a" && p.enabled && not (p.name == "web")) two_webs.proxies)
list-set_proxy_enabled_test = list-set_proxy_enabled "web" "a" two_webs
