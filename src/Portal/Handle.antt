-- ===== src/Portal/Handle.antt =====
-- `PortalActor::handle` of portal.rs, one function for each message. An error that `?` hands on
-- leaves what was done before it: the actor fails with the state that it has.
use ractor_wormhole.Prelude.{
  ℕ, ◌+◌, ◌%◌, ◌^◌, Option, none, some, List, [], ◌∷◌, ◌++◌, map, ◌==◌, if◌then◌else◌,
}
use ractor_wormhole.Prelude.Map.{get, insert, remove, nat_eq, bytes_eq}
use ractor_wormhole.Outcome.{Outcome, ok, err, send_failed, Bytes}
use ractor_wormhole.Outcome.Action.{Action, pure, lift, ◌>>=◌, ◌>>◌}
use ractor_wormhole.Transmaterialization.LeBytes.{from_le_bytes}
use ractor_wormhole.Portal.Types.{
  RemoteActorId, remote_actor_id_eq, ActorRequestError, Answer, found, refused, CrossPortalMessage,
  request_actor_by_name, response_actor_by_name, response_actor_by_id, send_message, actor_exited,
  Published, PortalActorMessage, handshake, content, close, immaterialize_message, transmit_message,
  publish_named_actor, publish_actor, register_proxy_for_remote_actor, query_named_remote_actor,
  wait_for_handshake, local_actor_exited, Introduction, PortalConduitState, opening, open_with,
  Effect, send_handshake, send_content, reply_opened, reply_named, reply_published, reply_queried,
  deliver, watch, stop_proxy, stop_portal, spawn_immaterialize, PortalActorState,
}
use ractor_wormhole.Portal.Env.{Env}
use ractor_wormhole.Portal.Wire.{immaterialize, rematerialize, xor_arrays}

abbrev pub Portal : Type 0 → Type 0
Portal A = Action PortalActorState A

unfoldable pub emit : Effect → Portal (Unit {0})
emit e s = (ok tt, record s { effects = s.effects ++ e ∷ [] })

unfoldable pub modify : (PortalActorState → PortalActorState) → Portal (Unit {0})
modify f s = (ok tt, f s)

-- `port.send(…)?`
unfoldable pub send_to : Env → ℕ → Effect → Portal (Unit {0})
unfolding ◌>>=◌ emit
send_to env port e = do emit e; lift (if env.port_open port then ok tt else err send_failed)

-- `sender.send(ConduitMessage::Content(bytes)).await?; sender.flush().await?`
unfoldable pub send_frame : Env → CrossPortalMessage → Portal (Unit {0})
unfolding ◌>>=◌ emit
send_frame env msg = do
  bytes ← lift (immaterialize env msg)
  if env.sink_open then emit (send_content bytes) else lift (err send_failed)

-- `PortalActor::pre_start`: the introduction goes out before any message is handled.
unfoldable pub pre_start : Env → Introduction → Portal (Unit {0})
unfolding emit
pre_start env introduction =
    if env.sink_open then emit (send_handshake introduction) else lift (err send_failed)

abbrev pub initial : Introduction → PortalActorState
initial introduction = record {
  local_id = introduction.this_side_id;
  channel_state = opening introduction;
  published_actors = [];
  proxies_for_remote_actors = [];
  named_actors = [];
  next_request_id = 1;
  open_requests = [];
  waiting_for_handshake = [];
  effects = [];
}

-- `published_actors.iter().find(|(_, (v, _))| v.get_id() == actor)`
unfoldable pub find_published : ℕ → List (ℕ × Published) → Option ℕ
find_published actor [] = none
find_published actor ((id, entry) ∷ more) =
    if entry.cell == actor then some id else find_published actor more

-- `PortalActor::publish_actor`
unfoldable pub publish : Env → Published → Portal ℕ
unfolding ◌>>=◌ find_published emit modify
publish env actor s = elim (find_published actor.cell s.published_actors) [
  | some id ↦ (ok id, s)
  | none ↦
      (do
        modify (λ s. record s { published_actors = insert env.fresh_uuid actor s.published_actors })
        emit (watch actor.cell)
        pure env.fresh_uuid)
        s
]

abbrev pub remote_id : PortalActorState → ℕ → ℕ → RemoteActorId
remote_id s channel id = record { connection_key = channel; side = s.local_id; id = id }

unfoldable pub channel_id_of : Introduction → Introduction → ℕ
channel_id_of self remote =
    from_le_bytes (xor_arrays self.channel_id_contribution remote.channel_id_contribution)

unfoldable pub on_handshake : Env → Bytes → PortalConduitState → Portal (Unit {0})
unfolding ◌>>=◌ emit modify channel_id_of
on_handshake env text (opening self_introduction) = do
  remote ← lift (env.parse_introduction text)
  modify (λ s. record s {
    channel_state = open_with (channel_id_of self_introduction remote);
    waiting_for_handshake = [];
    effects = s.effects ++ map reply_opened s.waiting_for_handshake;
  })
on_handshake env text (open_with channel_id) = emit stop_portal

-- An actor that the nexus knows by the name is published by this portal too.
unfoldable pub answer_from_nexus : Env → ℕ → Option Published → Portal Answer
unfolding ◌>>=◌ publish
answer_from_nexus env channel_id none s = (ok (refused ActorRequestError.actor_not_found), s)
answer_from_nexus env channel_id (some actor) s =
    (do id ← publish env actor; pure (found (remote_id s channel_id id))) s

-- The look-up of a name: in the portal's own registry, and then in the nexus's.
unfoldable pub answer_request : Env → ℕ → Bytes → Portal Answer
unfolding ◌>>=◌ answer_from_nexus
answer_request env channel_id name s = elim (get name s.named_actors) [
  | some id ↦ (ok (found (remote_id s channel_id id)), s)
  | none ↦
      (do registered ← lift (env.query_nexus name); answer_from_nexus env channel_id registered) s
]

unfoldable pub on_response : Env → ℕ → Answer → Portal (Unit {0})
unfolding ◌>>=◌ modify send_to
on_response env id answer s = elim (get id s.open_requests) [
  | some port ↦
      (do
        modify (λ s. record s { open_requests = remove id s.open_requests })
        send_to env port (reply_queried port answer))
        s
  | none ↦ (ok tt, s)
]

unfoldable pub on_send_message : Env → RemoteActorId → Bytes → Portal (Unit {0})
unfolding ◌>>=◌ emit
on_send_message env target bytes s = elim (get target.id s.published_actors) [
  | some actor ↦ (do lift (env.rematerialize actor bytes); emit (deliver actor bytes)) s
  | none ↦ (ok tt, s)
]

unfoldable pub on_actor_exited : RemoteActorId → Portal (Unit {0})
unfolding ◌>>=◌ emit modify
on_actor_exited actor s = elim (get actor s.proxies_for_remote_actors) [
  | some cell ↦
      (do
        modify
            (λ s. record s { proxies_for_remote_actors = remove actor s.proxies_for_remote_actors })
        emit (stop_proxy cell))
        s
  | none ↦ (ok tt, s)
]

unfoldable pub on_frame : Env → ℕ → CrossPortalMessage → Portal (Unit {0})
unfolding ◌>>=◌ answer_request send_frame on_response on_send_message on_actor_exited
on_frame env channel_id (request_actor_by_name id name) = do
  answer ← answer_request env channel_id name
  send_frame env (response_actor_by_name id answer)
on_frame env channel_id (response_actor_by_name id answer) = on_response env id answer
on_frame env channel_id (response_actor_by_id id answer) = on_response env id answer
on_frame env channel_id (send_message target bytes) = on_send_message env target bytes
on_frame env channel_id (actor_exited actor) = on_actor_exited actor

unfoldable pub on_content : Env → Bytes → PortalConduitState → Portal (Unit {0})
unfolding ◌>>=◌ emit on_frame
on_content env bytes (opening self_introduction) = emit stop_portal
on_content env bytes (open_with channel_id) = do
  msg ← lift (rematerialize env bytes)
  on_frame env channel_id msg

unfoldable pub on_wait : Env → ℕ → PortalConduitState → Portal (Unit {0})
unfolding modify send_to
on_wait env port (opening self_introduction) =
    modify (λ s. record s { waiting_for_handshake = s.waiting_for_handshake ++ port ∷ [] })
on_wait env port (open_with channel_id) = send_to env port (reply_opened port)

-- The reply of `PublishNamedActor`: `None` before the handshake.
unfoldable pub named_reply : Env → ℕ → Option ℕ → PortalConduitState → Portal (Unit {0})
unfolding send_to
named_reply env id none channel s = (ok tt, s)
named_reply env id (some port) (open_with channel_id) s =
    send_to env port (reply_named port (some (remote_id s channel_id id))) s
named_reply env id (some port) (opening self_introduction) s =
    send_to env port (reply_named port none) s

unfoldable pub on_publish_named : Env → Bytes → Published → Option ℕ → Portal (Unit {0})
unfolding ◌>>=◌ publish modify named_reply
on_publish_named env name actor reply s =
    (do
      id ← publish env actor
      modify (λ s. record s { named_actors = insert name id s.named_actors })
      named_reply env id reply s.channel_state)
      s

-- With a reply port the handshake must be over; without one it need not.
unfoldable pub on_publish : Env → Published → Option ℕ → PortalConduitState → Portal (Unit {0})
unfolding ◌>>=◌ publish send_to
on_publish env actor none channel s = (do publish env actor; pure tt) s
on_publish env actor (some port) (opening self_introduction) s = (ok tt, s)
on_publish env actor (some port) (open_with channel_id) s =
    (do id ← publish env actor; send_to env port (reply_published port (remote_id s channel_id id)))
      s

-- `next_request_id` is a `u64`; the release build wraps it around.
unfoldable pub on_query : Env → Bytes → ℕ → PortalConduitState → Portal (Unit {0})
unfolding ◌>>=◌ modify send_frame
on_query env name port (opening self_introduction) s = (ok tt, s)
on_query env name port (open_with channel_id) s =
    (do
      modify (λ s. record s {
        next_request_id = (s.next_request_id + 1) % 2 ^ 64;
        open_requests = insert s.next_request_id port s.open_requests;
      })
      send_frame env (request_actor_by_name s.next_request_id name))
      s

unfoldable pub on_immaterialize : RemoteActorId → ℕ → PortalConduitState → Portal (Unit {0})
unfolding emit
on_immaterialize target msg (opening self_introduction) s = (ok tt, s)
on_immaterialize target msg (open_with channel_id) s = emit (spawn_immaterialize target msg) s

unfoldable pub on_transmit : Env → RemoteActorId → Bytes → PortalConduitState → Portal (Unit {0})
unfolding send_frame
on_transmit env target bytes (opening self_introduction) s = (ok tt, s)
on_transmit env target bytes (open_with channel_id) s = send_frame env (send_message target bytes) s

unfoldable pub on_register : RemoteActorId → ℕ → PortalConduitState → Portal (Unit {0})
unfolding modify
on_register actor cell (opening self_introduction) s = (ok tt, s)
on_register actor cell (open_with channel_id) s =
    modify
      (λ s. record s { proxies_for_remote_actors = insert actor cell s.proxies_for_remote_actors })
      s

unfoldable pub on_local_exit : Env → ℕ → PortalConduitState → Portal (Unit {0})
unfolding send_frame
on_local_exit env actor (opening self_introduction) s = (ok tt, s)
on_local_exit env actor (open_with channel_id) s = elim (find_published actor s.published_actors) [
  | some id ↦ send_frame env (actor_exited (remote_id s channel_id id)) s
  | none ↦ (ok tt, s)
]

unfoldable pub handle : Env → PortalActorMessage → Portal (Unit {0})
unfolding emit
handle env (handshake text) s = on_handshake env text s.channel_state s
handle env (content bytes) s = on_content env bytes s.channel_state s
handle env close s = emit stop_portal s
handle env (immaterialize_message target msg) s = on_immaterialize target msg s.channel_state s
handle env (transmit_message target bytes) s = on_transmit env target bytes s.channel_state s
handle env (publish_named_actor name actor reply) s = on_publish_named env name actor reply s
handle env (publish_actor actor reply) s = on_publish env actor reply s.channel_state s
handle env (register_proxy_for_remote_actor actor cell) s = on_register actor cell s.channel_state s
handle env (query_named_remote_actor name port) s = on_query env name port s.channel_state s
handle env (wait_for_handshake port) s = on_wait env port s.channel_state s
handle env (local_actor_exited actor) s = on_local_exit env actor s.channel_state s

-- What the task of `ImmaterializeMessage` sends to the portal when it has the bytes.
unfoldable pub immaterialized : RemoteActorId → Outcome Bytes → Option PortalActorMessage
immaterialized target (ok bytes) = some (transmit_message target bytes)
immaterialized target _ = none
