-- ===== src/Chat.antt =====
-- The chat server of the repository, an application of the library.
mod Tests
pub mod AliasGenerator
pub mod ChatServer
pub mod Hub
