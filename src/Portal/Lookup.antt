-- ===== src/Portal/Lookup.antt =====
-- The look-up of an actor by its name, from one portal to the other and back.
use ractor_wormhole.Prelude.{
  ℕ, ◌+◌, ◌%◌, ◌^◌, ◌≡◌, ap, ◌∙◌, true, some, none, [], ◌∷◌, ◌++◌, ==_refl, if◌then◌else◌,
}
use ractor_wormhole.Prelude.Map.{get, insert, remove, nat_eq, bytes_eq, get-insert}
use ractor_wormhole.Outcome.{ok, Bytes}
use ractor_wormhole.Outcome.Action.{bind-eq}
use ractor_wormhole.Portal.Types.{
  Answer, found, refused, ActorRequestError, request_actor_by_name, response_actor_by_name,
  send_content, reply_queried, PortalActorState, content, query_named_remote_actor, open_with,
}
use ractor_wormhole.Portal.Env.{Env}
use ractor_wormhole.Portal.Handle.{
  handle, on_frame, on_query, answer_request, on_response, remote_id,
}
use ractor_wormhole.Portal.Protocol.{IsBincode, rematerialize_lem, content-frame, send_frame-ok}

-- The state of a portal that waits for the answer to a request.
abbrev asked : PortalActorState → ℕ → Bytes → PortalActorState
asked s port request = record s {
  next_request_id = (s.next_request_id + 1) % 2 ^ 64;
  open_requests = insert s.next_request_id port s.open_requests;
  effects = s.effects ++ send_content request ∷ [];
}

query_sends :
    (env : Env) (s : PortalActorState) (channel port : ℕ) (name request : Bytes)
    → s.channel_state ≡ open_with channel
    → env.encode_to_vec (request_actor_by_name s.next_request_id name) ≡ ok request
    → env.sink_open ≡ true
    → handle env (query_named_remote_actor name port) s ≡ (ok tt, asked s port request)
unfolding handle on_query
query_sends env s channel port name request o e up =
    rw (o, on_query) (send_frame-ok env _ request _ e up)

request_answered :
    (env : Env) (s : PortalActorState) (channel n : ℕ) (name response : Bytes) {answer : Answer}
    → answer_request env channel name s ≡ (ok answer, s)
    → env.encode_to_vec (response_actor_by_name n answer) ≡ ok response
    → env.sink_open ≡ true
    → on_frame env channel (request_actor_by_name n name) s
      ≡ (ok tt, record s { effects = s.effects ++ send_content response ∷ [] })
unfolding on_frame
request_answered env s channel n name response h e up =
    bind-eq (answer_request env channel name) _ h ∙ send_frame-ok env _ response s e up

response_delivered :
    (env : Env) (s : PortalActorState) (n port : ℕ) (answer : Answer)
    → get n s.open_requests ≡ some port
    → env.port_open port ≡ true
    → on_response env n answer s ≡ (
      ok tt,
      record s {
        open_requests = remove n s.open_requests;
        effects = s.effects ++ reply_queried port answer ∷ [];
      },
    )
unfolding on_response
response_delivered env s n port answer h up = rw (h, on_response) (rw up)

answer_request-named :
    (env : Env) (channel id : ℕ) (name : Bytes) (s : PortalActorState)
    → get name s.named_actors ≡ some id
    → answer_request env channel name s ≡ (ok (found (remote_id s channel id)), s)
unfolding answer_request
answer_request-named env channel id name s h = rw (h, answer_request)

answer_request-unknown :
    (env : Env) (channel : ℕ) (name : Bytes) (s : PortalActorState)
    → get name s.named_actors ≡ none
    → env.query_nexus name ≡ ok none
    → answer_request env channel name s ≡ (ok (refused ActorRequestError.actor_not_found), s)
unfolding answer_request
answer_request-unknown env channel name s h q = rw (h, answer_request) (rw q)

module _ (env_a env_b env_c : Env) (a b : PortalActorState) (channel port : ℕ)
    (name request response : Bytes) (oa : a.channel_state ≡ open_with channel)
    (ob : b.channel_state ≡ open_with channel) (ab : IsBincode env_a env_b)
    (bc : IsBincode env_b env_c) (sa : env_a.sink_open ≡ true) (sb : env_b.sink_open ≡ true)
    (pc : env_c.port_open port ≡ true)
    (sent : env_a.encode_to_vec (request_actor_by_name a.next_request_id name) ≡ ok request) where
  -- The three messages of a look-up, for whatever answer the other side has.
  lookup_lem :
      (answer : Answer)
      → answer_request env_b channel name b ≡ (ok answer, b)
      → env_b.encode_to_vec (response_actor_by_name a.next_request_id answer) ≡ ok response
      → (handle env_a (query_named_remote_actor name port) a ≡ (ok tt, asked a port request))
        × (handle env_b (content request) b
            ≡ (ok tt, record b { effects = b.effects ++ send_content response ∷ [] }))
        × (handle env_c (content response) (asked a port request) ≡ (
          ok tt,
          record (asked a port request) {
            open_requests =
                remove a.next_request_id (insert a.next_request_id port a.open_requests);
            effects = (a.effects ++ send_content request ∷ []) ++ reply_queried port answer ∷ [];
          },
        ))
  lookup_lem answer h e = (
    query_sends env_a a channel port name request oa sent sa,
    content-frame env_b _ request channel b ob (rematerialize_lem env_a env_b _ request ab sent)
        ∙ request_answered env_b b channel a.next_request_id name response h e sb,
    content-frame env_c _ response channel (asked a port request) oa
          (rematerialize_lem env_b env_c _ response bc e)
        ∙ unfold on_frame in
          response_delivered env_c (asked a port request) a.next_request_id port answer
            (get-insert a.next_request_id a.next_request_id port a.open_requests
              ∙ ap (λ t. if t then some port else get a.next_request_id a.open_requests)
                  (==_refl a.next_request_id))
            pc,
  )

  -- If both portals are open with the same channel id, bincode decodes what it encoded, and both
  -- sinks and the port are open, then a query for a name that the other portal has published runs
  -- through its three messages without an error: the port gets the published id with the channel's
  -- id and the other side's id, the request is no longer open, and the other portal changes
  -- nothing but what it has sent.
  pub lookup_found :
      (id : ℕ)
      → get name b.named_actors ≡ some id
      → env_b.encode_to_vec
          (response_actor_by_name a.next_request_id (found (remote_id b channel id)))
        ≡ ok response
      → (handle env_a (query_named_remote_actor name port) a ≡ (ok tt, asked a port request))
        × (handle env_b (content request) b
            ≡ (ok tt, record b { effects = b.effects ++ send_content response ∷ [] }))
        × (handle env_c (content response) (asked a port request) ≡ (
          ok tt,
          record (asked a port request) {
            open_requests =
                remove a.next_request_id (insert a.next_request_id port a.open_requests);
            effects =
                (a.effects ++ send_content request ∷ [])
                ++ reply_queried port (found (remote_id b channel id)) ∷ [];
          },
        ))
  lookup_found id named e =
      lookup_lem (found (remote_id b channel id))
        (answer_request-named env_b channel id name b named) e

  -- Under the same conditions a query for a name that neither the other portal nor its nexus knows
  -- ends with the port getting `ActorNotFound`, and the request is no longer open.
  pub lookup_missing :
      get name b.named_actors ≡ none
      → env_b.query_nexus name ≡ ok none
      → env_b.encode_to_vec
          (response_actor_by_name a.next_request_id (refused ActorRequestError.actor_not_found))
        ≡ ok response
      → (handle env_a (query_named_remote_actor name port) a ≡ (ok tt, asked a port request))
        × (handle env_b (content request) b
            ≡ (ok tt, record b { effects = b.effects ++ send_content response ∷ [] }))
        × (handle env_c (content response) (asked a port request) ≡ (
          ok tt,
          record (asked a port request) {
            open_requests =
                remove a.next_request_id (insert a.next_request_id port a.open_requests);
            effects =
                (a.effects ++ send_content request ∷ [])
                ++ reply_queried port (refused ActorRequestError.actor_not_found) ∷ [];
          },
        ))
  lookup_missing named unknown e =
      lookup_lem (refused ActorRequestError.actor_not_found)
        (answer_request-unknown env_b channel name b named unknown) e
