-- ===== src/Api/KeySpec.antt =====
-- pkg/web/server.go: requests on API keys, one after another, and the set of keys that they stand for.
use nexus_link.Base.{String, ◌≡◌}
use nexus_link.Base.{Bool, true, false, not, ◌||◌, some, List, [], ◌∷◌, if◌then◌else◌}
use nexus_link.Base.{◌==◌, Eq-nat, Eq-string, Eq-bytes, Eq-pair}
use nexus_link.Base.Dict.{is_some, get_or, lookup}
use nexus_link.Base.Tables.{find}
use nexus_link.Store.Tables.{User, Store}
use nexus_link.Store.Keys.{is_key}
use nexus_link.Api.State.{is_success, Panel, http_post, http_delete, Reply, Faults}
use nexus_link.Api.Keys.{v1_handle_api_keys, v1_handle_api_key_path}

pub data KeyRequest : Type 0 where
  adds : Faults → String → String → String → KeyRequest
  deletes : Faults → String → KeyRequest

unfoldable pub run_key : KeyRequest → Panel → Reply
run_key (adds f now key note) p = v1_handle_api_keys f now http_post (some (key, note)) p
run_key (deletes f key) p = v1_handle_api_key_path f http_delete key p

-- whether a request succeeds, for each of them, and the panel after all
unfoldable pub run_keys : List KeyRequest → Panel → List Bool × Panel
unfolding run_key
run_keys [] p = ([], p)
run_keys (r ∷ rs) p =
    let (reply, (notes, p')) = run_key r p in
    let (oks, last) = run_keys rs p' in (is_success reply ∷ oks, last)

-- the specification: a set of keys; a key is added once, deleted if it is there, and never empty
abbrev pub KeySet : Type 0
KeySet = String → Bool

unfoldable pub step : KeyRequest → KeySet → Bool × KeySet
step (adds f now key note) ks =
    if key == "" || f.write || ks key
    then (false, ks)
    else (true, λ k. if key == k then true else ks k)
step (deletes f key) ks =
    if key == "" || f.write || not (ks key)
    then (false, ks)
    else (true, λ k. if key == k then false else ks k)

unfoldable pub steps : List KeyRequest → KeySet → List Bool × KeySet
unfolding step
steps [] ks = ([], ks)
steps (r ∷ rs) ks = let (ok, ks') = step r ks in let (oks, last) = steps rs ks' in (ok ∷ oks, last)

-- the panel holds the keys of the set, in the database and in memory, and these users
pub record Holds (us : List User) (p : Panel) (ks : KeySet) : Type 0 where
  pub db : Store
  pub stored : p.server.store ≡ some db
  pub users_same : db.users ≡ us
  pub kept : (k : String) → is_some (find (is_key k) db.api_keys) ≡ ks k
  pub indexed : (k : String) → get_or (lookup k p.web.api_keys) false ≡ ks k
