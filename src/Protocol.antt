-- ===== src/Protocol.antt =====
-- pkg/protocol: message frames and the envelope of the UDP data channel.
pub mod Message
pub mod Envelope
pub mod Framing
pub mod Datagram
pub mod Tests
