-- ===== src/Portal/Cases.antt =====
-- The messages and effects of portal.rs, parted by what they do with the requests that are open.
use ractor_wormhole.Prelude.{ℕ}
use ractor_wormhole.Outcome.{Bytes}
use ractor_wormhole.Portal.Types.{
  remote_actor_id_eq, Effect, PortalActorMessage, handshake, content, close, immaterialize_message,
  transmit_message, publish_named_actor, publish_actor, register_proxy_for_remote_actor,
  query_named_remote_actor, wait_for_handshake, local_actor_exited, reply_queried,
}

-- Any effect but the answer to a query.
abbrev pub IsOther : Effect → Type 0
IsOther (reply_queried port answer) = ⊥
IsOther e = Unit {0}

-- The messages whose handlers touch nothing else.
abbrev pub IsCommon : PortalActorMessage → Type 0
IsCommon (handshake text) = ⊥
IsCommon (query_named_remote_actor name port) = ⊥
IsCommon msg = Unit {0}

-- A message is a handshake, a query, or one of these.
pub message-cases :
    (Q : PortalActorMessage → Type 0)
    → ((text : Bytes) → Q (handshake text))
    → ((name : Bytes) (port : ℕ) → Q (query_named_remote_actor name port))
    → ((msg : PortalActorMessage) → IsCommon msg → Q msg)
    → (msg : PortalActorMessage) → Q msg
message-cases Q shake query other (handshake text) = shake text
message-cases Q shake query other (query_named_remote_actor name port) = query name port
message-cases Q shake query other (content b) = other (content b) tt
message-cases Q shake query other close = other close tt
message-cases Q shake query other (immaterialize_message t m) = other (immaterialize_message t m) tt
message-cases Q shake query other (transmit_message t b) = other (transmit_message t b) tt
message-cases Q shake query other (publish_named_actor m a r) = other (publish_named_actor m a r) tt
message-cases Q shake query other (publish_actor a r) = other (publish_actor a r) tt
message-cases Q shake query other (register_proxy_for_remote_actor a c) =
    other (register_proxy_for_remote_actor a c) tt
message-cases Q shake query other (wait_for_handshake p) = other (wait_for_handshake p) tt
message-cases Q shake query other (local_actor_exited a) = other (local_actor_exited a) tt
