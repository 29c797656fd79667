-- ===== src/Tunnel.antt =====
-- cmd/server/main.go, the TCP data path: forwardWithAuth, and how a user and a data connection meet.
pub mod Forward
pub mod EndToEnd
pub mod Rendezvous
pub mod Matching
pub mod Reached
pub mod Tests
