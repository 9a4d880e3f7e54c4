-- ===== src/Portal/Types.antt =====
-- The data of portal.rs and the id of nexus.rs. Ids are numbers; an `ActorCell` is known by its
-- actor's id, a rematerializer by the message type that it was made for, and a reply port, a closure
-- and a text by a number or its bytes.
use ractor_wormhole.Prelude.{ℕ, ◌≡◌, ◌↔◌, Bool, true, ◌&&◌, Option, List, ◌==◌, arith}
use ractor_wormhole.Prelude.Map.{Eq}
use ractor_wormhole.Outcome.{Bytes}

pub record RemoteActorId : Type 0 where
  pub connection_key : ℕ
  pub side : ℕ
  pub id : ℕ

abbrev same_remote : RemoteActorId → RemoteActorId → Bool
same_remote a b = a.connection_key == b.connection_key && (a.side == b.side && a.id == b.id)

pub same_remote_iff : (a b : RemoteActorId) → (same_remote a b ≡ true) ↔ (a ≡ b)
same_remote_iff a b = ((λ h. ground arith), λ h. ground arith)

instance abbrev pub remote_actor_id_eq : Eq RemoteActorId
remote_actor_id_eq = record { beq = same_remote; beq_iff = same_remote_iff }

pub data ActorRequestError : Type 0 where
  actor_not_found transmission_error : ActorRequestError

-- `Result<RemoteActorId, ActorRequestError>`
pub data Answer : Type 0 where
  found : RemoteActorId → Answer
  refused : ActorRequestError → Answer

pub data CrossPortalMessage : Type 0 where
  request_actor_by_name : ℕ → Bytes → CrossPortalMessage
  response_actor_by_name : ℕ → Answer → CrossPortalMessage
  response_actor_by_id : ℕ → Answer → CrossPortalMessage
  send_message : RemoteActorId → Bytes → CrossPortalMessage
  actor_exited : RemoteActorId → CrossPortalMessage

-- An `ActorCell` with the rematerializer for its messages.
pub record Published : Type 0 where
  pub cell : ℕ
  pub receiver : ℕ

pub data PortalActorMessage : Type 0 where
  handshake : Bytes → PortalActorMessage
  content : Bytes → PortalActorMessage
  close : PortalActorMessage
  immaterialize_message : RemoteActorId → ℕ → PortalActorMessage
  transmit_message : RemoteActorId → Bytes → PortalActorMessage
  publish_named_actor : Bytes → Published → Option ℕ → PortalActorMessage
  publish_actor : Published → Option ℕ → PortalActorMessage
  register_proxy_for_remote_actor : RemoteActorId → ℕ → PortalActorMessage
  query_named_remote_actor : Bytes → ℕ → PortalActorMessage
  wait_for_handshake : ℕ → PortalActorMessage
  local_actor_exited : ℕ → PortalActorMessage

pub record Introduction : Type 0 where
  pub channel_id_contribution : Bytes
  pub version : Bytes
  pub info_text : Bytes
  pub this_side_id : ℕ

pub data PortalConduitState : Type 0 where
  opening : Introduction → PortalConduitState
  open_with : (channel_id : ℕ) → PortalConduitState

-- What the portal does to the rest of the program, in order. A reply is an attempt: the port that it
-- goes to may be closed.
pub data Effect : Type 0 where
  send_handshake : Introduction → Effect
  send_content : Bytes → Effect
  reply_opened : ℕ → Effect
  reply_named : ℕ → Option RemoteActorId → Effect
  reply_published : ℕ → RemoteActorId → Effect
  reply_queried : ℕ → Answer → Effect
  deliver : Published → Bytes → Effect
  watch : ℕ → Effect
  stop_proxy : ℕ → Effect
  stop_portal : Effect
  spawn_immaterialize : RemoteActorId → ℕ → Effect

pub record PortalActorState : Type 0 where
  pub local_id : ℕ
  pub channel_state : PortalConduitState
  pub published_actors : List (ℕ × Published)
  pub proxies_for_remote_actors : List (RemoteActorId × ℕ)
  pub named_actors : List (Bytes × ℕ)
  pub next_request_id : ℕ
  pub open_requests : List (ℕ × ℕ)
  pub waiting_for_handshake : List ℕ
  -- what has been done so far, the latest last
  pub effects : List Effect
