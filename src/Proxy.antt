-- ===== src/Proxy.antt =====
-- Actors and reply ports that cross a portal: transmaterialization/mod.rs and rpc_proxy.rs, and
-- `instantiate_proxy_for_remote_actor` of portal.rs.
mod Tests
pub mod World
pub mod ActorRef
pub mod ReplyPort
pub mod RpcProxy
pub mod Delivery
pub mod Call
