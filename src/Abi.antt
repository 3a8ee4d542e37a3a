-- ===== src/Abi.antt =====
-- The kernel ABI of xous/xous-rs/src/definitions.rs: errors, messages, results and their codecs.
pub mod Error
pub mod Outcome
pub mod After
pub mod Message
pub mod Result
pub mod RoundTrip
mod Tests
