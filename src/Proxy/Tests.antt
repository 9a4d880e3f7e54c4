-- ===== src/Proxy/Tests.antt =====
-- Proxies at concrete messages, with a stand-in for bincode that writes one number for each field.
use ractor_wormhole.Prelude.{
  ℕ, suc, ◌≡◌, refl, ap, subst, true, false, none, some, [], ◌∷◌, length, arith,
}
use ractor_wormhole.Prelude.Map.{get, remove, nat_eq}
use ractor_wormhole.Outcome.{Outcome, ok, err, panic, decode_failed, send_failed, Bytes}
use ractor_wormhole.Portal.Types.{
  RemoteActorId, remote_actor_id_eq, CrossPortalMessage, send_message, actor_exited,
  request_actor_by_name, response_actor_by_name, response_actor_by_id, Published,
  immaterialize_message, transmit_message, content, Introduction, PortalActorState, open_with,
  spawn_immaterialize, send_content, deliver,
}
use ractor_wormhole.Portal.Env.{Env}
use ractor_wormhole.Portal.Handle.{initial, handle, publish, immaterialized}
use ractor_wormhole.Portal.Protocol.{IsBincode}
use ractor_wormhole.Proxy.World.{World, answer, forward_to, reply_to, turn_on, timer_fires}
use ractor_wormhole.Proxy.ActorRef.{
  IdCodec, actor_ref, actor_ref-Crosses, after_publish, with_proxy,
}
use ractor_wormhole.Proxy.ReplyPort.{
  RpcReplyPort, PortCodec, reply_port, reply_port-Crosses, proxied_port, with_rpc_proxy, with_port,
}
use ractor_wormhole.Proxy.Call.{
  port_answered, MessageCodec, msg_rematerialize, in_world, answer_arrives,
}
use ractor_wormhole.Proxy.Call.Late.{handle-fails_late, port_answered-panics}
use ractor_wormhole.Proxy.RpcProxy.{replies, handle_all, pre_start, replies-once}
use ractor_wormhole.Proxy.Delivery.{proxy_receives, with_effect, message-delivered}

abbrev target : RemoteActorId
target = record { connection_key = 6; side = 22; id = 9 }

-- It takes the messages to actors only.
abbrev encode : CrossPortalMessage → Outcome Bytes
encode (send_message a bytes) = ok (a.connection_key ∷ a.side ∷ a.id ∷ bytes)
encode _ = err decode_failed

abbrev decode : Bytes → Outcome (CrossPortalMessage × ℕ)
decode (k ∷ s ∷ i ∷ bytes) = ok (
  send_message (record { connection_key = k; side = s; id = i }) bytes,
  suc (suc (suc (length bytes))),
)
decode _ = err decode_failed

abbrev env : Env
env = record {
  fresh_uuid = 7;
  encode_to_vec = encode;
  decode_from_slice = decode;
  parse_introduction = λ text. err decode_failed;
  port_open = λ port. true;
  sink_open = true;
  query_nexus = λ name. ok none;
  rematerialize = λ actor bytes. ok tt;
}

abbrev contents : Outcome Bytes → Bytes
contents (ok bytes) = bytes
contents _ = []

decodes_lem :
    (msg : CrossPortalMessage) (bytes : Bytes)
    → encode msg ≡ ok bytes
    → decode bytes ≡ ok (msg, length bytes)
decodes_lem (send_message a rest) bytes e =
    subst (λ (b : Bytes). decode b ≡ ok (send_message a rest, length b)) (ap contents e) refl
decodes_lem (request_actor_by_name n name) bytes e = cc
decodes_lem (response_actor_by_name n a) bytes e = cc
decodes_lem (response_actor_by_id n a) bytes e = cc
decodes_lem (actor_exited a) bytes e = cc

codec : IsBincode env env
codec = record { decodes = decodes_lem }

abbrev intro : Introduction
intro = record {
  channel_id_contribution = 5 ∷ 255 ∷ [];
  version = [];
  info_text = 1 ∷ [];
  this_side_id = 11;
}

abbrev actor_40 : Published
actor_40 = record { cell = 40; receiver = 1 }

abbrev open_a : PortalActorState
open_a = record (initial intro) { channel_state = open_with 6 }

abbrev open_b : PortalActorState
open_b = record (initial intro) {
  channel_state = open_with 6;
  published_actors = (9, actor_40) ∷ [];
}

abbrev world : PortalActorState → World
world portal = record {
  portal = portal;
  alive = true;
  mailbox = [];
  turn = 0;
  actors = [];
  spawns = λ cell. true;
  next_cell = 70;
  next_port = 3;
  forwards = [];
  timers = [];
}

message-delivered_example :
    ((proxy_receives target 80 (world open_a)).mailbox ≡ immaterialize_message target 80 ∷ [])
    × (handle env (immaterialize_message target 80) open_a
        ≡ (ok tt, with_effect open_a (spawn_immaterialize target 80)))
    × (immaterialized target (ok (4 ∷ [])) ≡ some (transmit_message target (4 ∷ [])))
    × (handle env
          (transmit_message target (4 ∷ []))
          (with_effect open_a (spawn_immaterialize target 80))
        ≡ (
          ok tt,
          with_effect
              (with_effect open_a (spawn_immaterialize target 80))
              (send_content (6 ∷ 22 ∷ 9 ∷ 4 ∷ [])),
        ))
    × (handle env (content (6 ∷ 22 ∷ 9 ∷ 4 ∷ [])) open_b
        ≡ (ok tt, with_effect open_b (deliver actor_40 (4 ∷ []))))
unfolding get
message-delivered_example =
    message-delivered env env (world open_a) open_b 6 target 80 (4 ∷ []) (6 ∷ 22 ∷ 9 ∷ 4 ∷ [])
      actor_40 refl refl codec refl refl refl refl

abbrev id_codec : IdCodec
id_codec = record {
  encode_to_vec = λ id. ok (id.connection_key ∷ id.side ∷ id.id ∷ []);
  decode_from_slice = λ bytes. ok (record { connection_key = 6; side = 11; id = 7 }, 3);
}

abbrev actor_of_a : RemoteActorId
actor_of_a = record { connection_key = 6; side = 11; id = 7 }

actor_ref-Crosses_example :
    ((actor_ref (λ turn. env) id_codec 1).immaterialize 40 (world open_a) ≡ (
      ok (6 ∷ 11 ∷ 7 ∷ []),
      after_publish
          (world open_a)
          (publish env (record { cell = 40; receiver = 1 }) open_a).1
          actor_of_a,
    ))
    × ((actor_ref (λ turn. env) id_codec 1).rematerialize (6 ∷ 11 ∷ 7 ∷ []) (world open_b)
        ≡ (ok 70, with_proxy (world open_b) actor_of_a))
unfolding publish reply_to
actor_ref-Crosses_example =
    actor_ref-Crosses (λ turn. env) (λ turn. env) id_codec 1 (world open_a) (world open_b) 40 6 7
      (publish env (record { cell = 40; receiver = 1 }) open_a).1 (6 ∷ 11 ∷ 7 ∷ []) refl refl refl
      refl refl refl refl refl refl refl

abbrev port_codec : PortCodec
port_codec = record {
  encode_to_vec = λ port. ok (7 ∷ []);
  decode_from_slice = λ bytes. ok (proxied_port open_a 6 7 1500000, 1);
}

abbrev port : RpcReplyPort
port = record { port = 5; timeout = some 1500000 }

reply_port-Crosses_example :
    ((reply_port (λ turn. env) port_codec 30000000000 1).immaterialize port (world open_a) ≡ (
      ok (7 ∷ []),
      after_publish
          (with_rpc_proxy (world open_a) port 1500000)
          (publish env (record { cell = 70; receiver = 1 }) open_a).1
          actor_of_a,
    ))
    × ((reply_port (λ turn. env) port_codec 30000000000 1).rematerialize (7 ∷ []) (world open_b) ≡ (
      ok (record { port = 3; timeout = some 1000000 }),
      with_port (with_proxy (world open_b) actor_of_a) 70,
    ))
unfolding publish reply_to
reply_port-Crosses_example =
    reply_port-Crosses (λ turn. env) (λ turn. env) port_codec 30000000000 1 (world open_a)
      (world open_b) port 6 7 (publish env (record { cell = 70; receiver = 1 }) open_a).1 (7 ∷ [])
      refl refl refl refl refl refl refl refl refl (omega arith) refl refl

replies-once_example :
    replies {T = ℕ} (handle_all (4 ∷ 5 ∷ 6 ∷ []) (pre_start 3 (some 2))).effects ≡ (3, 4) ∷ []
replies-once_example = replies-once 3 (some 2) 4 (5 ∷ 6 ∷ [])

-- The receiver's portal when it has told of the proxy 71.
abbrev proxied : PortalActorState
proxied = record open_b { proxies_for_remote_actors = (actor_of_a, 71) ∷ [] }

abbrev first_byte : Bytes → Outcome ℕ
first_byte [] = err decode_failed
first_byte (b ∷ bytes) = ok b

-- It takes the exits of actors only.
abbrev encode_exit : CrossPortalMessage → Outcome Bytes
encode_exit (actor_exited a) = ok (a.connection_key ∷ a.side ∷ a.id ∷ [])
encode_exit _ = err decode_failed

abbrev decode_exit : Bytes → Outcome (CrossPortalMessage × ℕ)
decode_exit (k ∷ s ∷ i ∷ []) =
    ok (actor_exited (record { connection_key = k; side = s; id = i }), 3)
decode_exit _ = err decode_failed

abbrev exit_env : Env
exit_env = record env { encode_to_vec = encode_exit; decode_from_slice = decode_exit }

decode_exit_lem :
    (msg : CrossPortalMessage) (bytes : Bytes)
    → encode_exit msg ≡ ok bytes
    → decode_exit bytes ≡ ok (msg, length bytes)
decode_exit_lem (actor_exited a) bytes e =
    subst (λ (b : Bytes). decode_exit b ≡ ok (actor_exited a, length b)) (ap contents e) refl
decode_exit_lem (send_message a rest) bytes e = cc
decode_exit_lem (request_actor_by_name n name) bytes e = cc
decode_exit_lem (response_actor_by_name n a) bytes e = cc
decode_exit_lem (response_actor_by_id n a) bytes e = cc

exit_codec : IsBincode exit_env exit_env
exit_codec = record { decodes = decode_exit_lem }

-- The caller's portal when it has published the actor that answers.
abbrev calling : PortalActorState
calling = record open_a { published_actors = (7, record { cell = 70; receiver = 1 }) ∷ [] }

abbrev answering : Published
answering = record { cell = 70; receiver = 1 }

-- The caller, whose actor 70 answers the port 5, and the receiver, whose port 3 has the proxy 71.
abbrev caller : World
caller = record (world calling) { actors = (70, answer 5) ∷ [] }

abbrev receiving : World
receiving = record (world proxied) {
  actors = (71, forward_to actor_of_a) ∷ [];
  forwards = (3, 71) ∷ [];
}

abbrev byte_codec : MessageCodec
byte_codec = record { immaterialize = λ msg. ok (msg ∷ []); rematerialize = first_byte }

same_codec : (w : World) → IsBincode env (in_world byte_codec w env)
same_codec w = record { decodes = decodes_lem }

answer_arrives_example :
    (port_answered 3 80 receiving ≡ (ok [], proxy_receives actor_of_a 80 receiving))
    × (handle env (immaterialize_message actor_of_a 80) proxied
        ≡ (ok tt, with_effect proxied (spawn_immaterialize actor_of_a 80)))
    × (immaterialized actor_of_a (ok (80 ∷ [])) ≡ some (transmit_message actor_of_a (80 ∷ [])))
    × (handle env
          (transmit_message actor_of_a (80 ∷ []))
          (with_effect proxied (spawn_immaterialize actor_of_a 80))
        ≡ (
          ok tt,
          with_effect
              (with_effect proxied (spawn_immaterialize actor_of_a 80))
              (send_content (6 ∷ 11 ∷ 7 ∷ 80 ∷ [])),
        ))
    × (handle (in_world byte_codec caller env) (content (6 ∷ 11 ∷ 7 ∷ 80 ∷ [])) calling
        ≡ (ok tt, with_effect calling (deliver answering (80 ∷ []))))
    × (msg_rematerialize byte_codec answering (80 ∷ []) caller
        ≡ (ok ((5, 80) ∷ []), record caller { actors = remove 70 caller.actors }))
unfolding get
answer_arrives_example =
    answer_arrives env env byte_codec caller receiving 6 3 71 actor_of_a 5 answering 80 (80 ∷ [])
      (6 ∷ 11 ∷ 7 ∷ 80 ∷ []) refl refl (same_codec caller) refl refl refl refl refl refl refl refl

handle-fails_late_example :
    (handle
        (in_world byte_codec (timer_fires 70 caller) env)
        (content (6 ∷ 11 ∷ 7 ∷ 80 ∷ []))
        (timer_fires 70 caller).portal
      ≡ (err send_failed, calling))
    × ((turn_on
          (in_world byte_codec (timer_fires 70 caller) env)
          (content (6 ∷ 11 ∷ 7 ∷ 80 ∷ []))
          (timer_fires 70 caller)).alive
        ≡ false)
unfolding get
handle-fails_late_example =
    handle-fails_late env env byte_codec caller 6 actor_of_a answering 80 (80 ∷ [])
      (6 ∷ 11 ∷ 7 ∷ 80 ∷ []) refl (same_codec (timer_fires 70 caller)) refl refl refl

port_answered-panics_example :
    port_answered 3 80 (turn_on exit_env (content (6 ∷ 11 ∷ 7 ∷ [])) receiving)
    ≡ (panic, turn_on exit_env (content (6 ∷ 11 ∷ 7 ∷ [])) receiving)
unfolding get
port_answered-panics_example =
    port_answered-panics exit_env exit_env receiving 6 3 71 actor_of_a 80 (6 ∷ 11 ∷ 7 ∷ []) refl
      exit_codec refl refl refl
