-- ===== src/Portal/Framed.antt =====
-- The handlers of portal.rs, for predicates of the portal that do not look at the requests it has open:
-- what the handlers have in common, once for all such predicates.
use ractor_wormhole.Prelude.{
  ℕ, Option, some, none, inl, inr, List, [], ◌∷◌, ◌++◌, Option-cases, if◌then◌else◌,
}
use ractor_wormhole.Prelude.Map.{get, remove, nat_eq, bytes_eq}
use ractor_wormhole.Outcome.{Outcome, ok, err, panic, stuck, send_failed, Bytes}
use ractor_wormhole.Outcome.Action.{lift, continue}
use ractor_wormhole.Outcome.Keeps.{
  Keeps, Keeps-lift, Keeps-pure, Keeps-bind, Keeps-lift-bind, Keeps-if, Keeps-after,
}
use ractor_wormhole.Portal.Types.{
  RemoteActorId, remote_actor_id_eq, Answer, CrossPortalMessage, request_actor_by_name,
  response_actor_by_name, response_actor_by_id, send_message, actor_exited, Published, Effect,
  PortalActorState, PortalActorMessage, handshake, content, close, immaterialize_message,
  transmit_message, publish_named_actor, publish_actor, register_proxy_for_remote_actor,
  query_named_remote_actor, wait_for_handshake, local_actor_exited, PortalConduitState, opening,
  open_with, send_content, stop_proxy, reply_named, reply_opened, stop_portal, spawn_immaterialize,
}
use ractor_wormhole.Portal.Env.{Env}
use ractor_wormhole.Portal.Cases.{IsOther, IsCommon}
use ractor_wormhole.Portal.Wire.{immaterialize, rematerialize}
use ractor_wormhole.Portal.Registry.{publish-known, publish-new}
use ractor_wormhole.Portal.Handle.{
  handle, remote_id, find_published, publish, emit, send_to, send_frame, answer_from_nexus,
  answer_request, on_response, on_send_message, on_actor_exited, on_frame, on_content, on_wait,
  named_reply, on_publish_named, on_publish, on_immaterialize, on_transmit, on_register,
  on_local_exit,
}

pub record IsFrame (P : PortalActorState → Type 0) : Type 0 where
  pub emits :
      (s : PortalActorState) (e : Effect)
      → IsOther e
      → P s
      → P (record s { effects = s.effects ++ e ∷ [] })
  pub publishes :
      (s : PortalActorState) (m : List (ℕ × Published))
      → P s
      → P (record s { published_actors = m })
  pub names :
      (s : PortalActorState) (m : List (Bytes × ℕ)) → P s → P (record s { named_actors = m })
  pub proxies :
      (s : PortalActorState) (m : List (RemoteActorId × ℕ))
      → P s
      → P (record s { proxies_for_remote_actors = m })
  pub waits : (s : PortalActorState) (m : List ℕ) → P s → P (record s { waiting_for_handshake = m })

module _ {P : PortalActorState → Type 0} (f : IsFrame P) where
  emit-Keeps : (e : Effect) → IsOther e → Keeps P (emit e)
  unfolding emit
  emit-Keeps e other = record { at = λ s h. f.emits s e other h }

  send_to-Keeps : (env : Env) (port : ℕ) (e : Effect) → IsOther e → Keeps P (send_to env port e)
  unfolding send_to
  send_to-Keeps env port e other =
      Keeps-bind (emit-Keeps e other)
        (λ _. Keeps-lift (if env.port_open port then ok tt else err send_failed))

  pub send_frame-Keeps : (env : Env) (msg : CrossPortalMessage) → Keeps P (send_frame env msg)
  unfolding send_frame
  send_frame-Keeps env msg = Keeps-lift-bind (immaterialize env msg) (λ bytes.
      Keeps-if env.sink_open (emit-Keeps (send_content bytes) tt) (Keeps-lift (err send_failed)))

  publish-Keeps : (env : Env) (actor : Published) → Keeps P (publish env actor)
  publish-Keeps env actor = record { at = λ s h. published s h }
    where
      published : (s : PortalActorState) → P s → P (publish env actor s).1
      published s h = elim (Option-cases (find_published actor.cell s.published_actors)) [
        | inr (id, known) ↦ rw (publish-known env actor s known) h
        | inl new ↦ rw (publish-new env actor s new) (f.publishes _ _ (f.emits s _ tt h))
      ]

  answer_from_nexus-Keeps :
      (env : Env) (channel : ℕ) (registered : Option Published)
      → Keeps P (answer_from_nexus env channel registered)
  unfolding answer_from_nexus
  answer_from_nexus-Keeps env channel none = record { at = λ s h. h }
  answer_from_nexus-Keeps env channel (some actor) = record {
    at = λ s h.
        Keeps-after P (publish env actor) s ((publish-Keeps env actor).at s h) (λ id. Keeps-pure _);
  }

  answer_request-Keeps :
      (env : Env) (channel : ℕ) (name : Bytes) → Keeps P (answer_request env channel name)
  unfolding answer_request
  answer_request-Keeps env channel name = record { at = λ s h. answered s h }
    where
      answered : (s : PortalActorState) → P s → P (answer_request env channel name s).1
      answered s h = elim (Option-cases (get name s.named_actors)) [
        | inr (id, known) ↦ rw (known, answer_request) h
        | inl unknown ↦
            rw (unknown, answer_request)
              ((Keeps-lift-bind (env.query_nexus name) (answer_from_nexus-Keeps env channel)).at s
                h)
      ]

  module _ (env : Env) (s : PortalActorState) (h : P s) where
    on_send_message-Keeps :
        (target : RemoteActorId) (bytes : Bytes) → P (on_send_message env target bytes s).1
    unfolding on_send_message
    on_send_message-Keeps target bytes = elim (Option-cases (get target.id s.published_actors)) [
      | inl unknown ↦ rw (unknown, on_send_message) h
      | inr (actor, known) ↦
          rw (known, on_send_message)
            (Keeps-after P (lift (env.rematerialize actor bytes)) s h (λ _. emit-Keeps _ tt))
    ]

    on_actor_exited-Keeps : (actor : RemoteActorId) → P (on_actor_exited actor s).1
    unfolding on_actor_exited
    on_actor_exited-Keeps actor = elim (Option-cases (get actor s.proxies_for_remote_actors)) [
      | inl unknown ↦ rw (unknown, on_actor_exited) h
      | inr (cell, known) ↦
          rw (known, on_actor_exited)
            ((emit-Keeps (stop_proxy cell) tt).at
              (record s { proxies_for_remote_actors = remove actor s.proxies_for_remote_actors })
              (f.proxies s _ h))
    ]

    module _ (responds : (id : ℕ) (answer : Answer) → P (on_response env id answer s).1) where
      on_frame-Keeps : (channel : ℕ) (msg : CrossPortalMessage) → P (on_frame env channel msg s).1
      unfolding on_frame
      on_frame-Keeps channel (request_actor_by_name id name) =
          Keeps-after P (answer_request env channel name) s
            ((answer_request-Keeps env channel name).at s h)
            (λ answer. send_frame-Keeps env (response_actor_by_name id answer))
      on_frame-Keeps channel (response_actor_by_name id answer) = responds id answer
      on_frame-Keeps channel (response_actor_by_id id answer) = responds id answer
      on_frame-Keeps channel (send_message target bytes) = on_send_message-Keeps target bytes
      on_frame-Keeps channel (actor_exited actor) = on_actor_exited-Keeps actor

      on_content-Keeps : (bytes : Bytes) (k : PortalConduitState) → P (on_content env bytes k s).1
      unfolding on_content
      on_content-Keeps bytes (opening i) = (emit-Keeps stop_portal tt).at s h
      on_content-Keeps bytes (open_with c) = reads (rematerialize env bytes)
        where
          reads : (r : Outcome CrossPortalMessage) → P (continue (on_frame env c) r s).1
          reads (ok msg) = on_frame-Keeps c msg
          reads (err e) = h
          reads panic = h
          reads stuck = h

    named_reply-Keeps :
        (id : ℕ) (reply : Option ℕ) (k : PortalConduitState) → Keeps P (named_reply env id reply k)
    unfolding named_reply
    named_reply-Keeps id none k = record { at = λ s h. h }
    named_reply-Keeps id (some port) (opening i) = record {
      at = λ s h. (send_to-Keeps env port (reply_named port none) tt).at s h;
    }
    named_reply-Keeps id (some port) (open_with c) = record {
      at = λ s h. (send_to-Keeps env port (reply_named port (some (remote_id s c id))) tt).at s h;
    }

    on_publish-Keeps :
        (actor : Published) (reply : Option ℕ) (k : PortalConduitState)
        → P (on_publish env actor reply k s).1
    unfolding on_publish
    on_publish-Keeps actor none k =
        Keeps-after P (publish env actor) s ((publish-Keeps env actor).at s h) (λ _. Keeps-pure tt)
    on_publish-Keeps actor (some port) (opening i) = h
    on_publish-Keeps actor (some port) (open_with c) =
        Keeps-after P (publish env actor) s ((publish-Keeps env actor).at s h)
          (λ id. send_to-Keeps env port _ tt)

    on_local_exit-Keeps : (actor : ℕ) (k : PortalConduitState) → P (on_local_exit env actor k s).1
    unfolding on_local_exit
    on_local_exit-Keeps actor (opening i) = h
    on_local_exit-Keeps actor (open_with c) =
        elim (Option-cases (find_published actor s.published_actors)) [
          | inl unknown ↦ rw (unknown, on_local_exit) h
          | inr (id, known) ↦ rw (known, on_local_exit) ((send_frame-Keeps env _).at s h)
        ]

    on_immaterialize-Keeps :
        (target : RemoteActorId) (msg : ℕ) (k : PortalConduitState)
        → P (on_immaterialize target msg k s).1
    unfolding on_immaterialize
    on_immaterialize-Keeps target msg (opening i) = h
    on_immaterialize-Keeps target msg (open_with c) =
        (emit-Keeps (spawn_immaterialize target msg) tt).at s h

    on_transmit-Keeps :
        (target : RemoteActorId) (bytes : Bytes) (k : PortalConduitState)
        → P (on_transmit env target bytes k s).1
    unfolding on_transmit
    on_transmit-Keeps target bytes (opening i) = h
    on_transmit-Keeps target bytes (open_with c) = (send_frame-Keeps env _).at s h

    on_register-Keeps :
        (actor : RemoteActorId) (cell : ℕ) (k : PortalConduitState)
        → P (on_register actor cell k s).1
    unfolding on_register
    on_register-Keeps actor cell (opening i) = h
    on_register-Keeps actor cell (open_with c) = f.proxies s _ h

    on_wait-Keeps : (port : ℕ) (k : PortalConduitState) → P (on_wait env port k s).1
    unfolding on_wait
    on_wait-Keeps port (opening i) = f.waits s _ h
    on_wait-Keeps port (open_with c) = (send_to-Keeps env port (reply_opened port) tt).at s h

    pub handle-Keeps :
        (msg : PortalActorMessage)
        → IsCommon msg
        → ((id : ℕ) (answer : Answer) → P (on_response env id answer s).1)
        → P (handle env msg s).1
    unfolding handle on_publish_named
    handle-Keeps (handshake text) c responds = elim c [ ]
    handle-Keeps (query_named_remote_actor name port) c responds = elim c [ ]
    handle-Keeps (content bytes) c responds = on_content-Keeps responds bytes s.channel_state
    handle-Keeps close c responds = (emit-Keeps stop_portal tt).at s h
    handle-Keeps (immaterialize_message target msg) c responds =
        on_immaterialize-Keeps target msg s.channel_state
    handle-Keeps (transmit_message target bytes) c responds =
        on_transmit-Keeps target bytes s.channel_state
    handle-Keeps (publish_named_actor name actor reply) c responds =
        Keeps-after P (publish env actor) s ((publish-Keeps env actor).at s h) λ id. record {
          at = λ t h. (named_reply-Keeps id reply s.channel_state).at _ (f.names t _ h);
        }
    handle-Keeps (publish_actor actor reply) c responds =
        on_publish-Keeps actor reply s.channel_state
    handle-Keeps (register_proxy_for_remote_actor actor cell) c responds =
        on_register-Keeps actor cell s.channel_state
    handle-Keeps (wait_for_handshake port) c responds = on_wait-Keeps port s.channel_state
    handle-Keeps (local_actor_exited actor) c responds = on_local_exit-Keeps actor s.channel_state
