-- ===== src/Derive.antt =====
-- ractor_wormhole_derive/src/derive_wormhole_serializable.rs: what the code that the macro writes does.
mod Tests
pub mod Item
pub mod Names
pub mod ReadField
pub mod Fields
pub mod Structs
pub mod Enums
pub mod Expand
