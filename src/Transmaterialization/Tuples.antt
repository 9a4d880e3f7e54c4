-- ===== src/Transmaterialization/Tuples.antt =====
-- ractor_wormhole/src/transmaterialization/default_impl_tupl.rs
pub mod To4
pub mod To6
pub mod To8
pub mod To10
pub mod To12
mod Tests
