-- ===== src/Client.antt =====
-- cmd/client/main.go: the client program.
pub mod Report
pub mod Accounting
pub mod Backends
pub mod Registration
pub mod Reconnect
pub mod Forward
pub mod Tests
