-- ===== src/Proxy/ReplyPort.antt =====
-- An `RpcReplyPort` in a message: `immaterialize_replychannel` and `rematerialize_replychannel` of
-- transmaterialization/mod.rs, and `rpc_reply_port_from_actor_ref` of rpc_proxy.rs.
use native.Mathlib.Nat.{mod-eq_of_lt}
use ractor_wormhole.Prelude.{
  ℕ, suc, ◌*◌, ◌/◌, ◌%◌, ◌^◌, ◌<◌, ◌≡◌, refl, ap, ◌∙◌, Option, none, some, true, [], ◌∷◌, ◌++◌,
  length,
}
use ractor_wormhole.Prelude.Map.{insert, nat_eq}
use ractor_wormhole.Outcome
use ractor_wormhole.Outcome.{Outcome, ok, Bytes}
use ractor_wormhole.Outcome.Action.{Action, lift, pure, ◌>>=◌, bind-eq, bind-lift}
use ractor_wormhole.Transmaterialization.Util.{require_buffer_size, require_buffer_size-eq}
use ractor_wormhole.Transmaterialization.Codec.{Transmaterializable}
use ractor_wormhole.Portal.Types.{RemoteActorId, Published, PortalActorState, open_with}
use ractor_wormhole.Portal.Env.{Env}
use ractor_wormhole.Portal.Handle.{publish, remote_id}
use ractor_wormhole.Proxy.World.{
  World, answer, spawn_linked, reply_to, ask_publish, instantiate_proxy_for_remote_actor,
}
use ractor_wormhole.Proxy.ActorRef.{
  ask_publish-ok, after_publish, with_proxy, spawn_linked-ok, instantiate_proxy-ok,
}

-- `timeout` is a `Duration`, in nanoseconds.
pub record RpcReplyPort : Type 0 where
  pub port : ℕ
  pub timeout : Option ℕ

pub record ProxiedRpcReplyPort : Type 0 where
  pub timeout_ms : Option ℕ
  pub remote_actor_id : RemoteActorId

-- bincode, for a `ProxiedRpcReplyPort`.
pub record PortCodec : Type 0 where
  pub encode_to_vec : ProxiedRpcReplyPort → Outcome Bytes
  pub decode_from_slice : Bytes → Outcome (ProxiedRpcReplyPort × ℕ)

unfoldable pub rematerialize_proxied : PortCodec → Bytes → Outcome ProxiedRpcReplyPort
rematerialize_proxied codec bytes =
    Outcome.◌>>=◌ (codec.decode_from_slice bytes)
      (λ r. Outcome.◌>>◌ (require_buffer_size bytes r.1) (ok r.0))

-- `Duration::as_millis`, and `Duration::from_millis(ms as u64)`.
abbrev pub as_millis : ℕ → ℕ
as_millis duration = duration / 1000000

abbrev pub from_millis : ℕ → ℕ
from_millis ms = ms % 2 ^ 64 * 1000000

abbrev pub timeout_or : (default : ℕ) → Option ℕ → ℕ
timeout_or default none = default
timeout_or default (some timeout) = timeout

abbrev timeout_from : Option ℕ → Option ℕ
timeout_from none = none
timeout_from (some ms) = some (from_millis ms)

-- `ractor::time::kill_after`
unfoldable pub kill_after : (timeout cell : ℕ) → Action World (Unit {0})
kill_after timeout cell w = (ok tt, record w { timers = w.timers ++ (timeout, cell) ∷ [] })

abbrev killed_after : (timeout cell : ℕ) → Action World ℕ
killed_after timeout cell = kill_after timeout cell >>= (λ _. pure cell)

-- The `RpcProxyActor` is started, and will be killed after the time-out.
unfoldable pub spawn_rpc_proxy : RpcReplyPort → (timeout : ℕ) → Action World ℕ
unfolding spawn_linked kill_after ◌>>=◌
spawn_rpc_proxy rpc timeout = spawn_linked (answer rpc.port) >>= killed_after timeout

-- A port, and a task that sends on what the port is given.
unfoldable pub rpc_reply_port_from_actor_ref :
    (cell : ℕ) (timeout : Option ℕ) → Action World RpcReplyPort
rpc_reply_port_from_actor_ref cell timeout w = (
  ok (record { port = w.next_port; timeout = timeout }),
  record w { next_port = suc w.next_port; forwards = insert w.next_port cell w.forwards },
)

-- The steps after the first `await` of each function.
abbrev serialize_port : PortCodec → (timeout : ℕ) → RemoteActorId → Action World Bytes
serialize_port codec timeout id =
    lift
      (codec.encode_to_vec (record { timeout_ms = some (as_millis timeout); remote_actor_id = id }))

abbrev publish_port : (ℕ → Env) → PortCodec → (receiver timeout cell : ℕ) → Action World Bytes
publish_port env codec receiver timeout cell =
    ask_publish env (record { cell = cell; receiver = receiver }) >>= serialize_port codec timeout

abbrev port_from : ProxiedRpcReplyPort → (cell : ℕ) → Action World RpcReplyPort
port_from structured cell = rpc_reply_port_from_actor_ref cell (timeout_from structured.timeout_ms)

abbrev proxy_from : ProxiedRpcReplyPort → Action World RpcReplyPort
proxy_from structured =
    instantiate_proxy_for_remote_actor structured.remote_actor_id >>= port_from structured

-- `receiver` is the rematerializer of the port's message type.
unfoldable pub reply_port :
    (ℕ → Env) → PortCodec → (default receiver : ℕ) → Transmaterializable World RpcReplyPort
unfolding ◌>>=◌ spawn_rpc_proxy ask_publish rematerialize_proxied instantiate_proxy_for_remote_actor
    rpc_reply_port_from_actor_ref
reply_port env codec default receiver = record {
  immaterialize = λ rpc.
      spawn_rpc_proxy rpc (timeout_or default rpc.timeout)
      >>= publish_port env codec receiver (timeout_or default rpc.timeout);
  rematerialize = λ buffer. lift (rematerialize_proxied codec buffer) >>= proxy_from;
}

rematerialize_proxied-exact :
    (codec : PortCodec) (proxied : ProxiedRpcReplyPort) (bytes : Bytes)
    → codec.decode_from_slice bytes ≡ ok (proxied, length bytes)
    → rematerialize_proxied codec bytes ≡ ok proxied
unfolding rematerialize_proxied
rematerialize_proxied-exact codec proxied bytes e =
    rw e (rw (require_buffer_size-eq bytes (length bytes) refl))

-- The worlds with the actor that answers, and with the port and its task.
abbrev pub with_rpc_proxy : World → RpcReplyPort → ℕ → World
with_rpc_proxy w rpc timeout = record w {
  actors = insert w.next_cell (answer rpc.port) w.actors;
  next_cell = suc w.next_cell;
  timers = w.timers ++ (timeout, w.next_cell) ∷ [];
}

abbrev pub with_port : World → ℕ → World
with_port w cell = record w {
  next_port = suc w.next_port;
  forwards = insert w.next_port cell w.forwards;
}

spawn_rpc_proxy-ok :
    (w : World) (rpc : RpcReplyPort) (timeout : ℕ)
    → w.spawns w.next_cell ≡ true
    → spawn_rpc_proxy rpc timeout w ≡ (ok w.next_cell, with_rpc_proxy w rpc timeout)
unfolding spawn_rpc_proxy
spawn_rpc_proxy-ok w rpc timeout starts =
    bind-eq (spawn_linked (answer rpc.port)) (killed_after timeout) {s = w}
      (spawn_linked-ok (answer rpc.port) w starts)
    ∙ unfold kill_after in refl

-- What is sent for a port.
abbrev pub proxied_port : PortalActorState → (channel id timeout : ℕ) → ProxiedRpcReplyPort
proxied_port s channel id timeout = record {
  timeout_ms = some (as_millis timeout);
  remote_actor_id = remote_id s channel id;
}

module _ (env_a env_b : ℕ → Env) (codec : PortCodec) (default receiver : ℕ) (a b : World) where
  -- If the sender's portal runs, is open and has no message to handle, the runtime starts the
  -- actor that answers, the portal publishes it, and has given no answer to the port that it is
  -- asked with, which is open, if bincode decodes what it encoded, and if the receiver's portal
  -- runs and the runtime starts its proxy, then an `RpcReplyPort` is sent as the remote id of a
  -- new actor that answers the port and is killed after the time-out, and is received as a new
  -- port whose value goes to a proxy of that actor; its time-out, the default where there is none,
  -- is cut to whole milliseconds, which must fit 64 bits.
  pub reply_port-Crosses :
      (rpc : RpcReplyPort) (channel id : ℕ) (s : PortalActorState) (bytes : Bytes)
      → a.alive ≡ true
      → a.spawns a.next_cell ≡ true
      → a.mailbox ≡ []
      → a.portal.channel_state ≡ open_with channel
      → publish (env_a a.turn) (record { cell = a.next_cell; receiver = receiver }) a.portal
        ≡ (ok id, s)
      → reply_to a.next_port s.effects ≡ none
      → (env_a a.turn).port_open a.next_port ≡ true
      → codec.encode_to_vec (proxied_port a.portal channel id (timeout_or default rpc.timeout))
        ≡ ok bytes
      → codec.decode_from_slice bytes
        ≡ ok (proxied_port a.portal channel id (timeout_or default rpc.timeout), length bytes)
      → as_millis (timeout_or default rpc.timeout) < 2 ^ 64
      → b.alive ≡ true
      → b.spawns b.next_cell ≡ true
      → ((reply_port env_a codec default receiver).immaterialize rpc a ≡ (
        ok bytes,
        after_publish
            (with_rpc_proxy a rpc (timeout_or default rpc.timeout))
            s
            (remote_id a.portal channel id),
      ))
        × ((reply_port env_b codec default receiver).rematerialize bytes b ≡ (
          ok (record {
            port = b.next_port;
            timeout = some (timeout_or default rpc.timeout / 1000000 * 1000000);
          }),
          with_port (with_proxy b (remote_id a.portal channel id)) b.next_cell,
        ))
  unfolding reply_port
  reply_port-Crosses rpc channel id s bytes runs starts_a empty o published new up e d small running
        starts =
      (
        bind-eq (spawn_rpc_proxy rpc timeout) (publish_port env_a codec receiver timeout) {s = a}
              (spawn_rpc_proxy-ok a rpc timeout starts_a)
            ∙ bind-eq (ask_publish env_a actor) (serialize_port codec timeout) (
                ask_publish-ok env_a actor (with_rpc_proxy a rpc timeout) channel id s runs empty o
                  published new up)
            ∙ ap (λ (r : Outcome Bytes). (r, after_publish (with_rpc_proxy a rpc timeout) s remote))
                e,
        bind-lift (rematerialize_proxied codec bytes) proxy_from b
              (rematerialize_proxied-exact codec (proxied_port a.portal channel id timeout) bytes d)
            ∙ bind-eq (instantiate_proxy_for_remote_actor remote)
                (port_from (proxied_port a.portal channel id timeout)) {s = b}
                (instantiate_proxy-ok b remote running starts)
            ∙ unfold rpc_reply_port_from_actor_ref in
              ap
                (λ (ms : ℕ). (
                  ok (record { port = b.next_port; timeout = some (ms * 1000000) }),
                  with_port (with_proxy b remote) b.next_cell,
                ))
                (mod-eq_of_lt small),
      )
    where
      timeout : ℕ
      timeout = timeout_or default rpc.timeout

      actor : Published
      actor = record { cell = a.next_cell; receiver = receiver }

      remote : RemoteActorId
      remote = remote_id a.portal channel id
