-- ===== src/Api/Clients.antt =====
-- pkg/web/server.go: v1HandleClients and v1HandleClientPath.
use nexus_link.Base.{ℕ, String}
use nexus_link.Base.{
  Bool, true, false, not, ◌||◌, Option, none, some, List, [], ◌∷◌, map, if◌then◌else◌,
}
use nexus_link.Base.{◌==◌, Eq-nat, Eq-string, Eq-bytes, Eq-pair}
use nexus_link.Base.{keep, any}
use nexus_link.Base.Dict.{Dict, get_or, lookup, insert}
use nexus_link.Store.Tables.{Client}
use nexus_link.Store.Clients.{list_clients_by_owner, get_client}
use nexus_link.Server.Identity.{add_managed_client}
use nexus_link.Server.Removal.{remove_managed_client}
use nexus_link.Server.Listing.{
  ClientTrafficInfo, stored_clients, list_clients_traffic, get_client_traffic,
}
use nexus_link.Web.Access.{ApiIdentity}
use nexus_link.Api.State.{
  Panel, Method, http_get, http_post, http_delete, nothing, all_clients, own_clients, one_client,
  Reply, success, failure, closes, answer, refuse, Faults,
}

pub record ClientRequest : Type 0 where
  pub name : String
  pub token : String
  pub max_tunnels : ℕ
  pub max_traffic_bytes : ℕ

-- the owners by the names of their clients, a later row over an earlier
unfoldable pub owners : List Client → Dict String String → Dict String String
owners [] m = m
owners (c ∷ cs) m = owners cs (insert c.name c.owner m)

-- the list of an administrator, with the owner of each client
unfoldable pub rows_of_all : Bool → Bool → Panel → List (ClientTrafficInfo × String)
unfolding list_clients_traffic stored_clients owners
rows_of_all traffic_fault fault p =
    map (λ i. (i, get_or (lookup i.name (owners (stored_clients fault p.server) [])) ""))
      (list_clients_traffic traffic_fault p.server)

unfoldable pub owned_clients : Bool → String → Panel → List Client
unfolding list_clients_by_owner
owned_clients fault username p = elim p.server.store [
  | none ↦ []
  | some db ↦ get_or (list_clients_by_owner fault username db) []
]

-- the list of a user: the clients that the user owns
unfoldable pub rows_of_user : Bool → Bool → String → Panel → List ClientTrafficInfo
unfolding list_clients_traffic owned_clients
rows_of_user traffic_fault fault username p =
    keep (λ i. any (λ c. c.name == i.name) (owned_clients fault username p))
      (list_clients_traffic traffic_fault p.server)

-- a client that a user creates is the user's
unfoldable pub owner_for : ApiIdentity → String
owner_for id = if id.admin then "" else id.username

unfoldable pub v1_handle_clients :
    Faults → String → ApiIdentity → Method → Option ClientRequest → Panel → Reply
unfolding rows_of_all rows_of_user owner_for add_managed_client
v1_handle_clients f now id method body p = elim method [
  | http_get ↦
      if id.admin
      then answer (all_clients (rows_of_all f.list f.read p)) p
      else answer (own_clients (rows_of_user f.list f.read id.username p)) p
  | http_post ↦ elim body [
    | none ↦ refuse 400 p
    | some r ↦
        if r.name == "" || r.token == ""
        then refuse 400 p
        else let (refusal, s) =
            add_managed_client f.read f.write now r.name r.token r.max_tunnels r.max_traffic_bytes
              (owner_for id) p.server in
          (
            elim refusal [ none ↦ success nothing | some _ ↦ failure 409 ],
            ([], record p { server = s }),
          )
  ]
  | _ ↦ refuse 405 p
]

-- whether a user is turned away; without a database nobody is
unfoldable pub is_foreign : Bool → ApiIdentity → String → Panel → Bool
unfolding get_client
is_foreign fault id name p = if id.admin then false else elim p.server.store [
  | none ↦ false
  | some db ↦ elim (get_or (get_client fault name db) none) [
    | none ↦ true
    | some c ↦ not (c.owner == id.username)
  ]
]

unfoldable pub client_by_method : Faults → Method → String → Panel → Reply
unfolding get_client_traffic remove_managed_client
client_by_method f method name p = elim method [
  | http_get ↦ elim (get_client_traffic f.list name p.server) [
    | none ↦ refuse 404 p
    | some i ↦ answer (one_client i) p
  ]
  | http_delete ↦
      let (conns, s) = remove_managed_client f.write name p.server in
      elim conns [
        | none ↦ (failure 404, ([], record p { server = s }))
        | some cs ↦ (success nothing, (map closes cs, record p { server = s }))
      ]
  | _ ↦ refuse 405 p
]

-- the part after the name, as in /traffic, does not change the answer
unfoldable pub v1_handle_client_path : Faults → ApiIdentity → Method → List String → Panel → Reply
unfolding is_foreign client_by_method
v1_handle_client_path f id method [] p = refuse 400 p
v1_handle_client_path f id method (name ∷ more) p =
    if name == ""
    then refuse 400 p
    else if is_foreign f.guard id name p
    then refuse 403 p
    else client_by_method f method name p
