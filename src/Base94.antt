-- ===== src/Base94.antt =====
-- The printable envelope of crates/core/src/frame/base94.rs over the `base94-simd` crate.
pub mod Defs
pub mod Invariant
pub mod HeaderTrip
pub mod HeaderSent
pub mod Stream
mod Tests
