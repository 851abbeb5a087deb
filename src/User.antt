-- ===== src/User.antt =====
-- The library that user programs link, src/0x01/pkg/lib/src.
pub mod Calls
pub mod Answers
pub mod Sleep
pub mod Lines
pub mod Spin
