-- ===== src/Portal/Invariant/Handlers.antt =====
-- Every handler of a portal keeps the invariant, also where it fails.
use ractor_wormhole.Prelude.{
  ℕ, ◌+◌, ◌%◌, ◌^◌, ◌<◌, ◌≡◌, refl, subst, inl, inr, Option, some, none, arith, Option-cases,
  Bool-cases,
}
use native.Mathlib.Nat.{mod-eq_of_lt}
use ractor_wormhole.Prelude.Map.{
  get, insert, remove, ◌=?◌, nat_eq, bytes_eq, get-insert, get-remove,
}
use ractor_wormhole.Outcome.{Outcome, ok, err, panic, stuck, Bytes}
use ractor_wormhole.Outcome.Action.{lift, continue}
use ractor_wormhole.Outcome.Keeps.{Keeps, Keeps-pure, Keeps-after, Keeps-returns}
use ractor_wormhole.Portal.Types.{
  RemoteActorId, remote_actor_id_eq, stop_proxy, Answer, CrossPortalMessage, request_actor_by_name,
  response_actor_by_name, response_actor_by_id, send_message, actor_exited, Published,
  PortalActorState, PortalActorMessage, handshake, content, close, immaterialize_message,
  transmit_message, publish_named_actor, publish_actor, register_proxy_for_remote_actor,
  query_named_remote_actor, wait_for_handshake, local_actor_exited, PortalConduitState, opening,
  open_with, reply_queried,
}
use ractor_wormhole.Portal.Env.{Env}
use ractor_wormhole.Portal.Wire.{rematerialize}
use ractor_wormhole.Portal.Handle.{
  handle, find_published, publish, on_handshake, answer_from_nexus, answer_request, on_response,
  on_send_message, on_actor_exited, on_frame, on_content, on_wait, named_reply, on_publish_named,
  on_publish, on_query, on_immaterialize, on_transmit, on_register, on_local_exit,
}
use ractor_wormhole.Portal.Invariant.{
  Inv, IsRegistered, emit-Keeps, send_to-Keeps, send_frame-Keeps, publish-Inv,
}

-- A name that is given to a registered id keeps names registered.
named :
    (name : Bytes) (id : ℕ) (s : PortalActorState)
    → Inv s
    → IsRegistered s.published_actors id
    → (n : Bytes) (k : ℕ) → get n (insert name id s.named_actors) ≡ some k
    → IsRegistered s.published_actors k
named name id s v r n k e = elim (Bool-cases (name =? n)) [
  | inl same ↦
      let h : id ≡ k = ground (arith, get-insert name n id s.named_actors) in
      subst (IsRegistered s.published_actors) h r
  | inr other ↦ v.registered n k (ground (arith, get-insert name n id s.named_actors))
]

module _ (env : Env) (s : PortalActorState) (v : Inv s) where
  on_handshake-Inv : (text : Bytes) (c : PortalConduitState) → Inv (on_handshake env text c s).1
  unfolding on_handshake
  on_handshake-Inv text (opening i) =
      Keeps-after Inv (lift (env.parse_introduction text)) s v λ remote. record {
        at = λ s v. record {
          distinct = v.distinct;
          registered = v.registered;
          below = v.below;
          idle = refl;
        };
      }
  on_handshake-Inv text (open_with c) = (emit-Keeps _).at s v

  on_response-Inv : (id : ℕ) (answer : Answer) → Inv (on_response env id answer s).1
  unfolding on_response
  on_response-Inv id answer = elim (Option-cases (get id s.open_requests)) [
    | inl unknown ↦ rw (unknown, on_response) v
    | inr (port, known) ↦
        rw (known, on_response)
          ((send_to-Keeps env port (reply_queried port answer)).at
            (record s { open_requests = remove id s.open_requests })
            (record {
              distinct = v.distinct;
              registered = v.registered;
              below = λ j port e. v.below j port (still j port e);
              idle = v.idle;
            }))
  ]
    where
      still :
          (j port : ℕ)
          → get j (remove id s.open_requests) ≡ some port
          → get j s.open_requests ≡ some port
      still j port e = ground (arith, get-remove id j s.open_requests)

  on_send_message-Inv :
      (target : RemoteActorId) (bytes : Bytes) → Inv (on_send_message env target bytes s).1
  unfolding on_send_message
  on_send_message-Inv target bytes = elim (Option-cases (get target.id s.published_actors)) [
    | inl unknown ↦ rw (unknown, on_send_message) v
    | inr (actor, known) ↦
        rw (known, on_send_message)
          (Keeps-after Inv (lift (env.rematerialize actor bytes)) s v (λ _. emit-Keeps _))
  ]

  on_actor_exited-Inv : (actor : RemoteActorId) → Inv (on_actor_exited actor s).1
  unfolding on_actor_exited
  on_actor_exited-Inv actor = elim (Option-cases (get actor s.proxies_for_remote_actors)) [
    | inl unknown ↦ rw (unknown, on_actor_exited) v
    | inr (cell, known) ↦
        rw (known, on_actor_exited)
          ((emit-Keeps (stop_proxy cell)).at
            (record s { proxies_for_remote_actors = remove actor s.proxies_for_remote_actors })
            (record {
              distinct = v.distinct;
              registered = v.registered;
              below = v.below;
              idle = v.idle;
            }))
  ]

  on_wait-Inv :
      (port : ℕ) (c : PortalConduitState) → s.channel_state ≡ c → Inv (on_wait env port c s).1
  unfolding on_wait
  on_wait-Inv port (opening i) e = record {
    distinct = v.distinct;
    registered = v.registered;
    below = v.below;
    idle = rw e tt;
  }
  on_wait-Inv port (open_with c) e = (send_to-Keeps env port _).at s v

  named_reply-Keeps :
      (id : ℕ) (reply : Option ℕ) (c : PortalConduitState) → Keeps Inv (named_reply env id reply c)
  unfolding named_reply
  named_reply-Keeps id none c = record { at = λ s v. v }
  named_reply-Keeps id (some port) (opening i) = record {
    at = λ s v. (send_to-Keeps env port _).at s v;
  }
  named_reply-Keeps id (some port) (open_with c) = record {
    at = λ s v. (send_to-Keeps env port _).at s v;
  }

  on_query-Inv :
      (name : Bytes) (port : ℕ) (c : PortalConduitState)
      → s.next_request_id + 1 < 2 ^ 64
      → Inv (on_query env name port c s).1
  unfolding on_query
  on_query-Inv name port (opening i) h = v
  on_query-Inv name port (open_with c) h =
      (send_frame-Keeps env (request_actor_by_name s.next_request_id name)).at
        (record s {
          next_request_id = (s.next_request_id + 1) % 2 ^ 64;
          open_requests = insert s.next_request_id port s.open_requests;
        })
        (record {
          distinct = v.distinct;
          registered = v.registered;
          below = λ id q e. rw (mod-eq_of_lt h) (given id q e);
          idle = v.idle;
        })
    where
      given :
          (id q : ℕ)
          → get id (insert s.next_request_id port s.open_requests) ≡ some q
          → id < s.next_request_id + 1
      given id q e =
          ground (arith, get-insert s.next_request_id id port s.open_requests, v.below id q)

  module _ (fresh : get env.fresh_uuid s.published_actors ≡ none) where
    answer_from_nexus-Inv :
        (c : ℕ) (registered : Option Published) → Inv (answer_from_nexus env c registered s).1
    unfolding answer_from_nexus
    answer_from_nexus-Inv c none = v
    answer_from_nexus-Inv c (some actor) =
        Keeps-after Inv (publish env actor) s (publish-Inv env actor s fresh v).2
          (λ id. Keeps-pure _)

    answer_request-Inv : (c : ℕ) (name : Bytes) → Inv (answer_request env c name s).1
    unfolding answer_request
    answer_request-Inv c name = elim (Option-cases (get name s.named_actors)) [
      | inr (id, known) ↦ rw (known, answer_request) v
      | inl unknown ↦ rw (unknown, answer_request) (continues (env.query_nexus name))
    ]
      where
        continues :
            (r : Outcome (Option Published)) → Inv (continue (answer_from_nexus env c) r s).1
        continues (ok registered) = answer_from_nexus-Inv c registered
        continues (err e) = v
        continues panic = v
        continues stuck = v

    on_publish_named-Inv :
        (name : Bytes) (actor : Published) (reply : Option ℕ)
        → Inv (on_publish_named env name actor reply s).1
    unfolding on_publish_named
    on_publish_named-Inv name actor reply =
        let p = publish-Inv env actor s fresh v in
        Keeps-returns Inv (publish env actor) _ s p.0 p.1 (
          (named_reply-Keeps p.0 reply s.channel_state).at
            (record (publish env actor s).1 {
              named_actors = insert name p.0 (publish env actor s).1.named_actors;
            })
            (record {
              distinct = p.2.distinct;
              registered = λ n id e. named name p.0 (publish env actor s).1 p.2 p.3 n id e;
              below = p.2.below;
              idle = p.2.idle;
            }))

    on_publish-Inv :
        (actor : Published) (reply : Option ℕ) (c : PortalConduitState)
        → Inv (on_publish env actor reply c s).1
    unfolding on_publish
    on_publish-Inv actor none c =
        Keeps-after Inv (publish env actor) s (publish-Inv env actor s fresh v).2
          (λ _. Keeps-pure tt)
    on_publish-Inv actor (some port) (opening i) = v
    on_publish-Inv actor (some port) (open_with c) =
        Keeps-after Inv (publish env actor) s (publish-Inv env actor s fresh v).2
          (λ id. send_to-Keeps env port _)

module _ (env : Env) (s : PortalActorState) (fresh : get env.fresh_uuid s.published_actors ≡ none)
    (v : Inv s) where
  on_frame-Inv : (c : ℕ) (msg : CrossPortalMessage) → Inv (on_frame env c msg s).1
  unfolding on_frame
  on_frame-Inv c (request_actor_by_name id name) =
      Keeps-after Inv (answer_request env c name) s (answer_request-Inv env s v fresh c name)
        (λ answer. send_frame-Keeps env (response_actor_by_name id answer))
  on_frame-Inv c (response_actor_by_name id answer) = on_response-Inv env s v id answer
  on_frame-Inv c (response_actor_by_id id answer) = on_response-Inv env s v id answer
  on_frame-Inv c (send_message target bytes) = on_send_message-Inv env s v target bytes
  on_frame-Inv c (actor_exited actor) = on_actor_exited-Inv env s v actor

  on_content-Inv : (bytes : Bytes) (c : PortalConduitState) → Inv (on_content env bytes c s).1
  unfolding on_content
  on_content-Inv bytes (opening i) = (emit-Keeps _).at s v
  on_content-Inv bytes (open_with c) = reads (rematerialize env bytes)
    where
      reads : (r : Outcome CrossPortalMessage) → Inv (continue (on_frame env c) r s).1
      reads (ok msg) = on_frame-Inv c msg
      reads (err e) = v
      reads panic = v
      reads stuck = v

  on_local_exit-Inv : (actor : ℕ) (c : PortalConduitState) → Inv (on_local_exit env actor c s).1
  unfolding on_local_exit
  on_local_exit-Inv actor (opening i) = v
  on_local_exit-Inv actor (open_with c) =
      elim (Option-cases (find_published actor s.published_actors)) [
        | inl unknown ↦ rw (unknown, on_local_exit) v
        | inr (id, known) ↦ rw (known, on_local_exit) ((send_frame-Keeps env _).at s v)
      ]

  -- Every message keeps the portal's invariant, also where its handler fails: each actor is
  -- published under one id, each name leads to a published actor, the id of each open request was
  -- given out before, and nobody waits once the portal is open. The drawn uuid must be new, and
  -- the request counter must not be at its last value.
  pub handle-Inv :
      (msg : PortalActorMessage) → s.next_request_id + 1 < 2 ^ 64 → Inv (handle env msg s).1
  unfolding handle
  handle-Inv (handshake text) h = on_handshake-Inv env s v text s.channel_state
  handle-Inv (content bytes) h = on_content-Inv bytes s.channel_state
  handle-Inv close h = (emit-Keeps _).at s v
  handle-Inv (immaterialize_message target msg) h = spawns s.channel_state
    where
      spawns : (c : PortalConduitState) → Inv (on_immaterialize target msg c s).1
      spawns (opening i) = unfold on_immaterialize in v
      spawns (open_with c) = unfold on_immaterialize in (emit-Keeps _).at s v
  handle-Inv (transmit_message target bytes) h = sends s.channel_state
    where
      sends : (c : PortalConduitState) → Inv (on_transmit env target bytes c s).1
      sends (opening i) = unfold on_transmit in v
      sends (open_with c) = unfold on_transmit in (send_frame-Keeps env _).at s v
  handle-Inv (publish_named_actor name actor reply) h =
      on_publish_named-Inv env s v fresh name actor reply
  handle-Inv (publish_actor actor reply) h =
      on_publish-Inv env s v fresh actor reply s.channel_state
  handle-Inv (register_proxy_for_remote_actor actor cell) h = registers s.channel_state
    where
      registers : (c : PortalConduitState) → Inv (on_register actor cell c s).1
      registers (opening i) = unfold on_register in v
      registers (open_with c) =
          unfold on_register in
          record {
            distinct = v.distinct;
            registered = v.registered;
            below = v.below;
            idle = v.idle;
          }
  handle-Inv (query_named_remote_actor name port) h =
      on_query-Inv env s v name port s.channel_state h
  handle-Inv (wait_for_handshake port) h = on_wait-Inv env s v port s.channel_state refl
  handle-Inv (local_actor_exited actor) h = on_local_exit-Inv actor s.channel_state
