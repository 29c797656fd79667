-- ===== src/Store.antt =====
-- pkg/store/store.go: the database of clients, API keys, tunnels, users and settings.
pub mod Tables
pub mod Clients
pub mod Tunnels
pub mod Users
pub mod Listing
pub mod Keys
pub mod Quota
pub mod Traffic
pub mod Isolation
pub mod Login
pub mod Tests
