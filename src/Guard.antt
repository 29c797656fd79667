-- ===== src/Guard.antt =====
-- pkg/security: the connection guard.
pub mod State
pub mod Admission
pub mod Bans
pub mod Counts
pub mod Limits
pub mod Tally
pub mod Bound
pub mod Tests
