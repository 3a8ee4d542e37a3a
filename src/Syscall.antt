-- ===== src/Syscall.antt =====
-- The syscall interface of xous/xous-rs/src/syscall.rs, as it is built for the `beetos` target.
pub mod Number
pub mod Kinds
pub mod Words
pub mod Call
pub mod Encode
pub mod Decode
mod Parts
mod RoundTrip
mod Read
mod Typed
mod Stable
mod Safe
pub mod Query
mod Replace
mod Tests
