-- ===== src/Transmaterialization.antt =====
-- ractor_wormhole/src/transmaterialization
pub mod LeBytes
pub mod Util
pub mod Prefixed
pub mod Codec
pub mod Capacity
pub mod Tuples
pub mod Vec
pub mod Scalars
pub mod Utf8
pub mod Text
pub mod Choices
pub mod Hostile
mod Tests
