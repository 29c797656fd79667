-- ===== src/Server.antt =====
-- cmd/server/main.go: the state of the server that its connections share, and the connections.
pub mod State
pub mod Identity
pub mod Tunnels
pub mod Traffic
pub mod Admission
pub mod Ownership
pub mod Permission
pub mod Keys
pub mod Acceptance
pub mod Departure
pub mod Alerts
pub mod Removal
pub mod Listing
pub mod Startup
pub mod Restart
pub mod Reseed
pub mod Session
pub mod Occupancy
pub mod Capacity
pub mod Tenure
pub mod Tests
pub mod SessionTests
