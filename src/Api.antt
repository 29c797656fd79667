-- ===== src/Api.antt =====
-- pkg/web/server.go: the open API v1.
pub mod State
pub mod Clients
pub mod Keys
pub mod Proxies
pub mod Tunnel
pub mod Users
pub mod Accounts
pub mod Isolation
pub mod Spares
pub mod Filters
pub mod Listings
pub mod KeySet
pub mod KeySpec
pub mod Quota
pub mod Login
pub mod Tests
