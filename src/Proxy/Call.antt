-- ===== src/Proxy/Call.antt =====
-- The way of an answer: from the port that the receiver's handler got, through both portals, to the port
-- of the caller. The steps are those of rpc_proxy.rs, of the proxy actor in portal.rs and of
-- MsgRematerializerImpl in transmaterialization/mod.rs.
pub mod Late
use ractor_wormhole.Prelude.{
  ℕ, suc, ◌≡◌, refl, ap, ap₂, ◌∙◌, sym, Bool, Option, none, some, true, false, List, [], ◌∷◌, ◌++◌,
  length, drop, drop-length, ==_refl, if◌then◌else◌, not, ◌&&◌,
}
use ractor_wormhole.Prelude.Map.{get, remove, nat_eq, get-remove}
use ractor_wormhole.Outcome
use ractor_wormhole.Outcome.{Outcome, ok, err, panic, stuck, send_failed, Bytes}
use ractor_wormhole.Outcome.Action.{Action, lift, pure, ◌>>=◌, bind-lift}
use ractor_wormhole.Portal.Types.{
  RemoteActorId, remote_actor_id_eq, Published, PortalActorMessage, immaterialize_message,
  transmit_message, content, send_message, actor_exited, Effect, spawn_immaterialize, send_content,
  deliver, stop_proxy, PortalActorState, open_with,
}
use ractor_wormhole.Portal.Env.{Env}
use ractor_wormhole.Portal.Handle.{handle, immaterialized, on_frame, on_send_message, emit}
use ractor_wormhole.Portal.Protocol.{IsBincode, content-frame, rematerialize_lem}
use ractor_wormhole.Portal.Exit.{exit_stops}
use ractor_wormhole.Proxy.World.{
  World, Job, forward_to, answer, turn_on, settled, is_ok, stop_all, stops_portal, timer_fires,
}
use ractor_wormhole.Proxy.Delivery.{proxy_receives, with_effect, message-delivered}
use ractor_wormhole.Proxy.RpcProxy
use ractor_wormhole.Proxy.RpcProxy.{RpcProxyActorState, replies}

-- What the ports of this process are answered.
abbrev pub Replies : Type 0
Replies = List (ℕ × ℕ)

-- The actor's link to the portal is left out here.
abbrev unlinked : Option ℕ → RpcProxyActorState ℕ
unlinked port = record { rpc_reply_port = port; has_supervisor = none; effects = [] }

-- An actor that the context started gets a message; one that does not run takes none. The one that
-- answers a port stops then.
unfoldable pub job_receives : (cell : ℕ) → Option Job → ℕ → Action World Replies
unfolding proxy_receives RpcProxy.handle
job_receives cell none msg w = (err send_failed, w)
job_receives cell (some (forward_to id)) msg w = (ok [], proxy_receives id msg w)
job_receives cell (some (answer port)) msg w = (
  ok (replies (RpcProxy.handle msg (unlinked (some port))).effects),
  record w { actors = remove cell w.actors },
)

unfoldable pub actor_receives : (cell : ℕ) → ℕ → Action World Replies
unfolding get job_receives
actor_receives cell msg w = job_receives cell (get cell w.actors) msg w

-- `.unwrap()`
abbrev pub unwrapped : {A : Type 0} → Outcome A × World → Outcome A × World
unwrapped (err e, w) = (panic, w)
unwrapped r = r

-- The task of `rpc_reply_port_from_actor_ref`: `Ok(msg) => actor_ref.send_message(…).unwrap()`.
unfoldable pub task_forwards : Option ℕ → ℕ → Action World Replies
unfolding actor_receives
task_forwards none value w = (ok [], w)
task_forwards (some cell) value w = unwrapped (actor_receives cell value w)

unfoldable pub port_answered : (port : ℕ) → ℕ → Action World Replies
unfolding get task_forwards
port_answered port value w = task_forwards (get port w.forwards) value w

-- The codec of the message type.
pub record MessageCodec : Type 0 where
  pub immaterialize : ℕ → Outcome Bytes
  pub rematerialize : Bytes → Outcome ℕ

-- `MsgRematerializerImpl::rematerialize`: the bytes are read and sent to the actor.
unfoldable pub msg_rematerialize : MessageCodec → Published → Bytes → Action World Replies
unfolding actor_receives ◌>>=◌
msg_rematerialize codec actor bytes = do
  msg ← lift (codec.rematerialize bytes)
  actor_receives actor.cell msg

-- What the portal sees of it.
abbrev pub outcome_of : {A : Type 0} → Outcome A × World → Outcome (Unit {0})
outcome_of (ok a, w) = ok tt
outcome_of (err e, w) = err e
outcome_of (panic, w) = panic
outcome_of (stuck, w) = stuck

abbrev pub in_world : MessageCodec → World → Env → Env
in_world codec w env = record env {
  rematerialize = λ actor bytes. outcome_of (msg_rematerialize codec actor bytes w);
}

module _ (env_a env_b : Env) (codec : MessageCodec) (a b : World) (channel : ℕ) where
  -- The answer to a call arrives: if both portals are open with the same channel id, the port that
  -- the receiver was given still has its proxy, the caller's portal still publishes the actor that
  -- answers and the actor waits for the value, bincode decodes what it encoded, the message type
  -- reads back what it wrote and the sink is open, then a value given to the port is queued by the
  -- proxy, encoded and sent as a frame, and from this frame read and delivered to the actor, which
  -- answers the caller's port with the value, once, and stops.
  pub answer_arrives :
      (port proxy : ℕ) (remote : RemoteActorId) (callers_port : ℕ) (actor : Published) (value : ℕ)
      (bytes frame : Bytes)
      → b.portal.channel_state ≡ open_with channel
      → a.portal.channel_state ≡ open_with channel
      → IsBincode env_b (in_world codec a env_a)
      → env_b.encode_to_vec (send_message remote bytes) ≡ ok frame
      → env_b.sink_open ≡ true
      → get port b.forwards ≡ some proxy
      → get proxy b.actors ≡ some (forward_to remote)
      → get remote.id a.portal.published_actors ≡ some actor
      → get actor.cell a.actors ≡ some (answer callers_port)
      → codec.immaterialize value ≡ ok bytes
      → codec.rematerialize bytes ≡ ok value
      → (port_answered port value b ≡ (ok [], proxy_receives remote value b))
        × (handle env_b (immaterialize_message remote value) b.portal
            ≡ (ok tt, with_effect b.portal (spawn_immaterialize remote value)))
        × (immaterialized remote (codec.immaterialize value) ≡ some (transmit_message remote bytes))
        × (handle env_b
              (transmit_message remote bytes)
              (with_effect b.portal (spawn_immaterialize remote value))
            ≡ (
              ok tt,
              with_effect
                  (with_effect b.portal (spawn_immaterialize remote value))
                  (send_content frame),
            ))
        × (handle (in_world codec a env_a) (content frame) a.portal
            ≡ (ok tt, with_effect a.portal (deliver actor bytes)))
        × (msg_rematerialize codec actor bytes a
            ≡ (ok ((callers_port, value) ∷ []), record a { actors = remove actor.cell a.actors }))
  answer_arrives port proxy remote callers_port actor value bytes frame ob oa bin enc up forwards
        proxied known waits written read =
      let (queued, started, task, sent, delivered) =
        message-delivered env_b (in_world codec a env_a) b a.portal channel remote value bytes frame
          actor ob oa bin enc up known (ap outcome_of replied) in
      (forwarded, started, ap (immaterialized remote) written ∙ task, sent, delivered, replied)
    where
      forwarded : port_answered port value b ≡ (ok [], proxy_receives remote value b)
      forwarded =
          unfold port_answered in
          ap (λ o. task_forwards o value b) forwards
          ∙ unfold task_forwards in
            unfold actor_receives in
            ap (λ o. unwrapped (job_receives proxy o value b)) proxied ∙ unfold job_receives in refl

      replied :
          msg_rematerialize codec actor bytes a
          ≡ (ok ((callers_port, value) ∷ []), record a { actors = remove actor.cell a.actors })
      replied =
          unfold msg_rematerialize in
          bind-lift (codec.rematerialize bytes) (actor_receives actor.cell) a read
          ∙ unfold actor_receives in
            ap (λ o. job_receives actor.cell o value a) waits
            ∙ unfold job_receives in unfold RpcProxy.handle in refl
