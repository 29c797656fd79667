-- ===== src/Config.antt =====
-- The configuration of the server and of the client: pkg/config/config.go, and what
-- cmd/client/main.go makes of it before it connects.
pub mod Load
pub mod Startup
pub mod Precedence
pub mod Tests
