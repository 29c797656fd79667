-- ===== src/Relay.antt =====
-- The two ends of a tunnel together: cmd/server/main.go and cmd/client/main.go.
pub mod Outbound
pub mod Backend
pub mod Delivery
pub mod Stream
pub mod Sync
pub mod Tests
