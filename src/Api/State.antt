-- ===== src/Api/State.antt =====
-- pkg/web/server.go: what the handlers of the open API share. A request arrives as its method, the
-- parts of its path after the prefix, and its decoded body, `none` when JSON does not decode;
-- numbers are not negative. A handler answers with a status or a result, and tells of the control
-- connections that it closes and of the webhooks that it calls. Texts of errors are left out.
use nexus_link.Base.{ℕ, String, ◌≡◌, ap}
use nexus_link.Base.{Bool, true, false, Option, none, some, List, [], ◌∷◌, if◌then◌else◌}
use nexus_link.Base.{Eq-nat, Eq-string, Eq-bytes, Eq-pair}
use nexus_link.Store.Tables.{ApiKey, User, Store, Proxy}
use nexus_link.Server.State.{Server}
use nexus_link.Server.Tunnels.{close_proxy}
use nexus_link.Server.Removal.{notify_client_sync}
use nexus_link.Server.Listing.{ClientTrafficInfo}
use nexus_link.Web.State.{WebServer}

-- the database is one, and stands with the server
pub record Panel : Type 0 where
  pub server : Server
  pub web : WebServer

unfoldable pub web_of : Panel → WebServer
web_of p = record p.web { store = p.server.store }

abbrev pub put_store : Store → Panel → Panel
put_store db p = record p { server = record p.server { store = some db } }

pub data Method : Type 0 where
  http_get http_post http_patch http_delete http_other : Method

pub data Payload : Type 0 where
  nothing : Payload
  all_clients : List (ClientTrafficInfo × String) → Payload
  own_clients : List ClientTrafficInfo → Payload
  one_client : ClientTrafficInfo → Payload
  key_list : List ApiKey → Payload
  tunnel_list : List (Proxy × Bool) → Payload
  tunnel : Option Proxy → Payload
  user_list : List User → Payload
  one_user : User → Payload
  new_token : String → Payload
  identity : String → String → String → Payload

pub data Response : Type 0 where
  success : Payload → Response
  failure : ℕ → Response

pub data Note : Type 0 where
  closes : ℕ → Note
  event : String → Note

abbrev pub Reply : Type 0
Reply = Response × (List Note × Panel)

abbrev pub answer : Payload → Panel → Reply
answer x p = (success x, ([], p))

abbrev pub refuse : ℕ → Panel → Reply
refuse status p = (failure status, ([], p))

unfoldable pub is_success : Response → Bool
is_success (success x) = true
is_success (failure status) = false

-- CloseProxy, with its webhook
unfoldable pub take_down : String → Panel → Bool × (List Note × Panel)
unfolding close_proxy
take_down name p =
    let (found, s) = close_proxy name p.server in
    (found, (if found then event "proxy_closed" ∷ [] else [], record p { server = s }))

-- NotifyClientSync
unfoldable pub sync : String → Panel → List Note
sync client p = elim (notify_client_sync client p.server) [ some c ↦ closes c ∷ [] | none ↦ [] ]

-- which calls of the database fail, one for each call of a handler
pub record Faults : Type 0 where
  pub guard : Bool
  pub access : Bool
  pub read : Bool
  pub list : Bool
  pub write : Bool
  pub reread : Bool

abbrev pub no_faults : Faults
no_faults = record {
  guard = false;
  access = false;
  read = false;
  list = false;
  write = false;
  reread = false;
}

abbrev store_or : Option Store → (Store → Reply) → Panel → Reply
store_or none use_it p = refuse 503 p
store_or (some db) use_it p = use_it db

-- without a database a handler answers 503
unfoldable pub with_store : Panel → (Store → Reply) → Reply
with_store p use_it = store_or p.server.store use_it p

pub with_store-some :
    (db : Store) (p : Panel) (use_it : Store → Reply)
    → p.server.store ≡ some db
    → with_store p use_it ≡ use_it db
unfolding with_store
with_store-some db p use_it e = ap (λ o. store_or o use_it p) e
