-- ===== src/Conduit/Message.antt =====
-- `ConduitMessage` of conduit/mod.rs.
use ractor_wormhole.Prelude.{Option}
use ractor_wormhole.Outcome.{Bytes}

pub data ConduitMessage : Type 0 where
  handshake : Bytes → ConduitMessage
  content : Bytes → ConduitMessage
  close : Option Bytes → ConduitMessage
