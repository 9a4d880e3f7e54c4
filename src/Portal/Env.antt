-- ===== src/Portal/Env.antt =====
-- What one message of the portal meets: the answers of the libraries and of the other actors.
use ractor_wormhole.Prelude.{ℕ, Bool, Option}
use ractor_wormhole.Outcome.{Outcome, Bytes}
use ractor_wormhole.Portal.Types.{CrossPortalMessage, Introduction, Published}

pub record Env : Type 0 where
  -- `Uuid::new_v4()`, drawn at most once for each message
  pub fresh_uuid : ℕ
  -- bincode's `encode_to_vec`, and its `decode_from_slice` with the number of bytes consumed
  pub encode_to_vec : CrossPortalMessage → Outcome Bytes
  pub decode_from_slice : Bytes → Outcome (CrossPortalMessage × ℕ)
  -- serde_json's reading of the introduction
  pub parse_introduction : Bytes → Outcome Introduction
  -- whether `RpcReplyPort::send`, and the conduit's sink, still take something
  pub port_open : ℕ → Bool
  pub sink_open : Bool
  -- the nexus's answer to `QueryNamedActor`
  pub query_nexus : Bytes → Outcome (Option Published)
  -- `MsgRematerializer::rematerialize`: decode for the type, and send to the actor
  pub rematerialize : Published → Bytes → Outcome (Unit {0})
