-- ===== src/Web.antt =====
-- pkg/web: the administration panel and the identities of the open API.
pub mod State
pub mod Settings
pub mod Login
pub mod Access
pub mod Lockout
pub mod Attempts
pub mod Csrf
pub mod Sessions
pub mod Journal
pub mod Tenancy
pub mod Itoa
pub mod Maintenance
pub mod Expiry
pub mod Tests
