-- ===== src/Auth.antt =====
-- pkg/auth: HMAC signed packets and frames.
pub mod Sign
pub mod Packet
pub mod Framed
pub mod Reader
pub mod Tests
