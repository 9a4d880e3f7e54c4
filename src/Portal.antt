-- ===== src/Portal.antt =====
-- ractor_wormhole/src/portal.rs: the actor behind one end of a conduit.
pub mod Types
pub mod Env
pub mod Wire
pub mod Handle
pub mod Registry
pub mod Invariant
pub mod Xor
pub mod Protocol
pub mod Lookup
pub mod Exit
pub mod Gate
mod Tests
pub mod Cases
pub mod Framed
pub mod Answers
pub mod Runs
pub mod Sides
pub mod InState
