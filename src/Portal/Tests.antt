-- ===== src/Portal/Tests.antt =====
-- The portal at concrete messages, with a stand-in for bincode that writes one number for each field.
use ractor_wormhole.Prelude.{
  ℕ, zero, suc, ◌≤◌, ◌≡◌, refl, ap, subst, true, none, some, List, [], ◌∷◌, length, arith,
}
use ractor_wormhole.Prelude.Map.{get, insert, remove, nat_eq, bytes_eq}
use ractor_wormhole.Outcome.{Outcome, ok, err, decode_failed, ◌>>=◌, Bytes}
use ractor_wormhole.Portal.Types.{
  RemoteActorId, ActorRequestError, found, refused, CrossPortalMessage, request_actor_by_name,
  response_actor_by_name, response_actor_by_id, send_message, actor_exited, Published,
  publish_named_actor, publish_actor, handshake, content, query_named_remote_actor,
  local_actor_exited, register_proxy_for_remote_actor, Introduction, PortalActorState, open_with,
  remote_actor_id_eq, send_content, send_handshake, stop_proxy, reply_opened, reply_queried,
  reply_published, watch, Effect, Answer,
}
use ractor_wormhole.Portal.Env.{Env}
use ractor_wormhole.Portal.Wire.{xor_arrays, immaterialize, rematerialize}
use ractor_wormhole.Transmaterialization.Util.{require_buffer_size}
use ractor_wormhole.Transmaterialization.LeBytes.{from_le_bytes}
use ractor_wormhole.Portal.Handle.{
  handle, initial, find_published, channel_id_of, pre_start, on_publish_named, publish, named_reply,
  emit, modify, on_handshake, on_query, on_content, on_frame, on_response, send_frame, send_to,
}
use ractor_wormhole.Portal.Invariant.{Inv, initial-Inv}
use ractor_wormhole.Portal.Invariant.Handlers.{handle-Inv}
use ractor_wormhole.Portal.Gate.{handle-Quiet, Quiet}
use ractor_wormhole.Portal.Protocol.{IsBincode, handshake-agrees}
use ractor_wormhole.Portal.Lookup.{lookup_found, lookup_missing}
use ractor_wormhole.Outcome.Action
use ractor_wormhole.Portal.Runs.{Run, started, handled, Run-Inv, handle-OpenWith}
use ractor_wormhole.Portal.Answers.{Asked, answers, answers_bounded}
use ractor_wormhole.Portal.Sides.{Side, sides-agree}
use ractor_wormhole.Portal.Exit.{exit_reaches_proxy, register_twice, publish_twice}

abbrev actor_of : ℕ → ℕ → ℕ → RemoteActorId
actor_of key side id = record { connection_key = key; side = side; id = id }

-- The messages of a look-up and of an exit; it takes no other.
abbrev encode : CrossPortalMessage → Outcome Bytes
encode (request_actor_by_name n name) = ok (0 ∷ n ∷ name)
encode (response_actor_by_name n (found a)) = ok (1 ∷ n ∷ a.connection_key ∷ a.side ∷ a.id ∷ [])
encode (response_actor_by_name n (refused ActorRequestError.actor_not_found)) = ok (2 ∷ n ∷ [])
encode (actor_exited a) = ok (3 ∷ a.connection_key ∷ a.side ∷ a.id ∷ [])
encode _ = err decode_failed

abbrev decode : Bytes → Outcome CrossPortalMessage
decode (zero ∷ n ∷ name) = ok (request_actor_by_name n name)
decode (suc zero ∷ n ∷ k ∷ s ∷ i ∷ []) = ok (response_actor_by_name n (found (actor_of k s i)))
decode (suc (suc zero) ∷ n ∷ []) =
    ok (response_actor_by_name n (refused ActorRequestError.actor_not_found))
decode (suc (suc (suc zero)) ∷ k ∷ s ∷ i ∷ []) = ok (actor_exited (actor_of k s i))
decode _ = err decode_failed

abbrev decode_all : Bytes → Outcome (CrossPortalMessage × ℕ)
decode_all bytes = do msg ← decode bytes; ok (msg, length bytes)

abbrev intro_a : Introduction
intro_a = record {
  channel_id_contribution = 5 ∷ 255 ∷ [];
  version = [];
  info_text = 1 ∷ [];
  this_side_id = 11;
}

abbrev intro_b : Introduction
intro_b = record {
  channel_id_contribution = 3 ∷ 128 ∷ [];
  version = [];
  info_text = 2 ∷ [];
  this_side_id = 22;
}

abbrev sample_env : Introduction → Env
sample_env other = record {
  fresh_uuid = 7;
  encode_to_vec = encode;
  decode_from_slice = decode_all;
  parse_introduction = λ text. ok other;
  port_open = λ port. true;
  sink_open = true;
  query_nexus = λ name. ok none;
  rematerialize = λ actor bytes. ok tt;
}

abbrev env_a : Env
env_a = sample_env intro_b

abbrev env_b : Env
env_b = sample_env intro_a

abbrev contents : Outcome Bytes → Bytes
contents (ok bytes) = bytes
contents _ = []

written :
    (msg : CrossPortalMessage) (bytes all : Bytes)
    → decode_all all ≡ ok (msg, length all)
    → Outcome.ok all ≡ ok bytes
    → decode_all bytes ≡ ok (msg, length bytes)
written msg bytes all d e =
    subst (λ (b : Bytes). decode_all b ≡ ok (msg, length b)) (ap contents e) d

decodes_lem :
    (msg : CrossPortalMessage) (bytes : Bytes)
    → encode msg ≡ ok bytes
    → decode_all bytes ≡ ok (msg, length bytes)
decodes_lem (request_actor_by_name n name) bytes e = written _ bytes _ refl e
decodes_lem (response_actor_by_name n (found a)) bytes e = written _ bytes _ refl e
decodes_lem (response_actor_by_name n (refused ActorRequestError.actor_not_found)) bytes e =
    written _ bytes _ refl e
decodes_lem (response_actor_by_name n (refused ActorRequestError.transmission_error)) bytes e = cc
decodes_lem (response_actor_by_id n answer) bytes e = cc
decodes_lem (send_message a rest) bytes e = cc
decodes_lem (actor_exited a) bytes e = written _ bytes _ refl e

codec : (x y : Introduction) → IsBincode (sample_env x) (sample_env y)
codec x y = record { decodes = decodes_lem }

abbrev chat : Bytes
chat = 99 ∷ 104 ∷ []

abbrev actor_40 : Published
actor_40 = record { cell = 40; receiver = 1 }

-- Two portals that are open; the second has published the actor 40 as 9 under the name "ch".
abbrev open_a : PortalActorState
open_a = record (initial intro_a) { channel_state = open_with 6 }

abbrev open_b : PortalActorState
open_b = record (initial intro_b) {
  channel_state = open_with 6;
  published_actors = (9, actor_40) ∷ [];
  named_actors = (chat, 9) ∷ [];
}

abbrev proxied : PortalActorState
proxied = record open_a { proxies_for_remote_actors = (actor_of 6 22 9, 50) ∷ [] }

handle-Inv_example :
    Inv (handle env_a (publish_named_actor chat actor_40 (some 3)) (initial intro_a)).1
unfolding get
handle-Inv_example =
    handle-Inv env_a (initial intro_a) refl (initial-Inv intro_a)
      (publish_named_actor chat actor_40 (some 3)) (omega arith)

handle-Quiet_example : Quiet (handle env_a (content (0 ∷ 1 ∷ chat)) (initial intro_a)).1
handle-Quiet_example = handle-Quiet env_a (initial intro_a) intro_a tt (content (0 ∷ 1 ∷ chat)) refl

handshake-agrees_example :
    (handle env_a (handshake (2 ∷ [])) (record (initial intro_a) { waiting_for_handshake = 4 ∷ [] })
      ≡ (
        ok tt,
        record (initial intro_a) { channel_state = open_with 32518; effects = reply_opened 4 ∷ [] },
      ))
    × (handle env_b (handshake (1 ∷ [])) (initial intro_b)
        ≡ (ok tt, record (initial intro_b) { channel_state = open_with 32518 }))
unfolding channel_id_of xor_arrays from_le_bytes
handshake-agrees_example =
    handshake-agrees env_a env_b (record (initial intro_a) { waiting_for_handshake = 4 ∷ [] })
      (initial intro_b) intro_a intro_b (1 ∷ []) (2 ∷ []) refl refl refl refl
      (omega arith, (omega arith, tt)) (omega arith, (omega arith, tt))

abbrev asked_a : Bytes → PortalActorState
asked_a name = record open_a {
  next_request_id = 2;
  open_requests = (1, 3) ∷ [];
  effects = send_content (0 ∷ 1 ∷ name) ∷ [];
}

abbrev answered_a : Bytes → Answer → PortalActorState
answered_a name answer = record open_a {
  next_request_id = 2;
  effects = send_content (0 ∷ 1 ∷ name) ∷ reply_queried 3 answer ∷ [];
}

lookup_found_example :
    (handle env_a (query_named_remote_actor chat 3) open_a ≡ (ok tt, asked_a chat))
    × (handle env_b (content (0 ∷ 1 ∷ chat)) open_b
        ≡ (ok tt, record open_b { effects = send_content (1 ∷ 1 ∷ 6 ∷ 22 ∷ 9 ∷ []) ∷ [] }))
    × (handle env_a (content (1 ∷ 1 ∷ 6 ∷ 22 ∷ 9 ∷ [])) (asked_a chat)
        ≡ (ok tt, answered_a chat (found (actor_of 6 22 9))))
unfolding get insert remove
lookup_found_example =
    lookup_found env_a env_b env_a open_a open_b 6 3 chat (0 ∷ 1 ∷ chat) (1 ∷ 1 ∷ 6 ∷ 22 ∷ 9 ∷ [])
      refl refl (codec intro_b intro_a) (codec intro_a intro_b) refl refl refl refl 9 refl refl

lookup_missing_example :
    (handle env_a (query_named_remote_actor (7 ∷ []) 3) open_a ≡ (ok tt, asked_a (7 ∷ [])))
    × (handle env_b (content (0 ∷ 1 ∷ 7 ∷ [])) open_b
        ≡ (ok tt, record open_b { effects = send_content (2 ∷ 1 ∷ []) ∷ [] }))
    × (handle env_a (content (2 ∷ 1 ∷ [])) (asked_a (7 ∷ []))
        ≡ (ok tt, answered_a (7 ∷ []) (refused ActorRequestError.actor_not_found)))
unfolding get insert remove
lookup_missing_example =
    lookup_missing env_a env_b env_a open_a open_b 6 3 (7 ∷ []) (0 ∷ 1 ∷ 7 ∷ []) (2 ∷ 1 ∷ []) refl
      refl (codec intro_b intro_a) (codec intro_a intro_b) refl refl refl refl refl refl refl

exit_reaches_proxy_example :
    (handle env_b (local_actor_exited 40) open_b
      ≡ (ok tt, record open_b { effects = send_content (3 ∷ 6 ∷ 22 ∷ 9 ∷ []) ∷ [] }))
    × (handle env_a (content (3 ∷ 6 ∷ 22 ∷ 9 ∷ [])) proxied
        ≡ (ok tt, record open_a { effects = stop_proxy 50 ∷ [] }))
unfolding find_published get remove
exit_reaches_proxy_example =
    exit_reaches_proxy env_b env_a open_b proxied 6 40 9 50 (3 ∷ 6 ∷ 22 ∷ 9 ∷ []) refl refl refl
      refl (codec intro_a intro_b) refl refl

abbrev reproxied : PortalActorState
reproxied = record open_a { proxies_for_remote_actors = (actor_of 6 22 9, 51) ∷ [] }

register_twice_example :
    (handle env_a (register_proxy_for_remote_actor (actor_of 6 22 9) 50) open_a ≡ (ok tt, proxied))
    × (handle env_a (register_proxy_for_remote_actor (actor_of 6 22 9) 51) proxied
        ≡ (ok tt, reproxied))
    × (handle env_a (content (3 ∷ 6 ∷ 22 ∷ 9 ∷ [])) reproxied
        ≡ (ok tt, record open_a { effects = stop_proxy 51 ∷ [] }))
    × (get {V = ℕ} (actor_of 6 22 9) [] ≡ none)
unfolding insert remove
register_twice_example =
    register_twice env_a env_a env_a open_a 6 (actor_of 6 22 9) 50 51 (3 ∷ 6 ∷ 22 ∷ 9 ∷ []) refl
      refl

abbrev published_a : List Effect → PortalActorState
published_a more = record open_a {
  published_actors = (7, actor_40) ∷ [];
  effects = watch 40 ∷ reply_published 3 (actor_of 6 11 7) ∷ more;
}

publish_twice_example :
    (handle env_a (publish_actor actor_40 (some 3)) open_a ≡ (ok tt, published_a []))
    × (handle env_a (publish_actor actor_40 (some 4)) (published_a [])
        ≡ (ok tt, published_a (reply_published 4 (actor_of 6 11 7) ∷ [])))
unfolding find_published get insert
publish_twice_example =
    publish_twice env_a env_a open_a 6 3 4 actor_40 actor_40 refl refl refl refl refl refl

-- A portal that starts, publishes an actor under a name, and has not read a handshake.
abbrev begun : PortalActorState
begun = record (initial intro_a) { effects = send_handshake intro_a ∷ [] }

abbrev named_a : PortalActorState
named_a = record (initial intro_a) {
  published_actors = (7, actor_40) ∷ [];
  named_actors = (chat, 7) ∷ [];
  effects = send_handshake intro_a ∷ watch 40 ∷ [];
}

named_a-Run : Run named_a
unfolding handle pre_start on_publish_named publish named_reply find_published emit modify
    Action.◌>>=◌ get insert
named_a-Run =
    handled env_a (publish_named_actor chat actor_40 none) begun named_a
      (started env_a intro_a begun refl) refl (omega arith) refl

Run-Inv_example : Inv named_a
Run-Inv_example = Run-Inv named_a named_a-Run

handle-OpenWith_example :
    (handle env_a (content (0 ∷ 1 ∷ chat)) open_b).1.channel_state ≡ open_with 6
handle-OpenWith_example = handle-OpenWith 6 env_a open_b refl (content (0 ∷ 1 ∷ chat))

-- Both sides, each when it has read the other's introduction.
abbrev opened_a : PortalActorState
opened_a = record (initial intro_a) {
  channel_state = open_with (channel_id_of intro_a intro_b);
  effects = send_handshake intro_a ∷ [];
}

abbrev opened_b : PortalActorState
opened_b = record (initial intro_b) {
  channel_state = open_with (channel_id_of intro_b intro_a);
  effects = send_handshake intro_b ∷ [];
}

opened_a-Side : Side intro_a intro_b (2 ∷ []) opened_a
unfolding handle pre_start on_handshake
opened_a-Side =
    Side.handled env_a (handshake (2 ∷ [])) begun opened_a (Side.started env_a begun refl) refl refl
      refl

opened_b-Side : Side intro_b intro_a (1 ∷ []) opened_b
unfolding handle pre_start on_handshake
opened_b-Side =
    Side.handled env_b (handshake (1 ∷ []))
      (record (initial intro_b) { effects = send_handshake intro_b ∷ [] }) opened_b
      (Side.started env_b (record (initial intro_b) { effects = send_handshake intro_b ∷ [] }) refl)
      refl refl refl

sides-agree_example : channel_id_of intro_a intro_b ≡ channel_id_of intro_b intro_a
sides-agree_example =
    sides-agree intro_a intro_b (1 ∷ []) (2 ∷ []) opened_a opened_b (channel_id_of intro_a intro_b)
      (channel_id_of intro_b intro_a) opened_a-Side opened_b-Side (omega arith, (omega arith, tt))
      (omega arith, (omega arith, tt)) refl refl

-- A query with the port 3 that is answered: the other side does not know the name.
abbrev queried : Answer → PortalActorState
queried answer = record opened_a {
  next_request_id = 2;
  effects = send_handshake intro_a ∷ send_content (0 ∷ 1 ∷ chat) ∷ reply_queried 3 answer ∷ [];
}

abbrev querying : PortalActorState
querying = record opened_a {
  next_request_id = 2;
  open_requests = (1, 3) ∷ [];
  effects = send_handshake intro_a ∷ send_content (0 ∷ 1 ∷ chat) ∷ [];
}

opened_a-Asked : Asked 3 0 opened_a
unfolding handle pre_start on_handshake
opened_a-Asked =
    Asked.handled env_a (handshake (2 ∷ [])) 0 begun opened_a
      (Asked.started env_a intro_a begun refl) refl

querying-Asked : Asked 3 1 querying
unfolding handle on_query insert modify send_frame Action.◌>>=◌ immaterialize
querying-Asked =
    Asked.handled env_a (query_named_remote_actor chat 3) 0 opened_a querying opened_a-Asked refl

queried-Asked : Asked 3 1 (queried (refused ActorRequestError.actor_not_found))
unfolding handle on_content on_frame on_response get remove emit send_to Action.◌>>=◌ rematerialize
    require_buffer_size
queried-Asked =
    Asked.handled env_a (content (2 ∷ 1 ∷ [])) 1 querying
      (queried (refused ActorRequestError.actor_not_found)) querying-Asked refl

answers_bounded_example :
    answers 3 (queried (refused ActorRequestError.actor_not_found)).effects ≤ 1
answers_bounded_example =
    answers_bounded 3 1 (queried (refused ActorRequestError.actor_not_found)) queried-Asked
