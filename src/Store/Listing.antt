-- ===== src/Store/Listing.antt =====
-- pkg/store/store.go: the queries that list tunnels and API keys in an order.
use nexus_link.Base.{Bool, Option, none, some, List, if◌then◌else◌}
use nexus_link.Base.Text.{order_by}
use nexus_link.Store.Tables.{ApiKey, Proxy, Store}

-- ORDER BY client_name, id; the table is in the order of the ids
unfoldable pub list_proxies : Bool → Store → Option (List Proxy)
unfolding order_by
list_proxies fault s = if fault then none else some (order_by (λ p. p.client_name) s.proxies)

-- ORDER BY created_at
unfoldable pub list_api_keys : Bool → Store → Option (List ApiKey)
unfolding order_by
list_api_keys fault s = if fault then none else some (order_by (λ k. k.created_at) s.api_keys)
