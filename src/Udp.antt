-- ===== src/Udp.antt =====
-- cmd/server/main.go: the UDP data channel of a proxy and its sessions.
pub mod Channel
pub mod SessionId
pub mod Pairing
pub mod Cleanup
pub mod Users
pub mod Steps
pub mod Sessions
pub mod Waiting
pub mod Registration
pub mod Tests
