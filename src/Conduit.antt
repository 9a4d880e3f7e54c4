-- ===== src/Conduit.antt =====
-- The conduits: how the messages of two portals travel over a stream of bytes.
mod Tests
pub mod Message
pub mod ReceiveLoop
pub mod Bytestream
pub mod Frame
pub mod Ssh
pub mod WebSocket
pub mod UnixSocket
pub mod Connect
