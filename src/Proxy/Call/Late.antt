-- ===== src/Proxy/Call/Late.antt =====
-- What comes too late: an answer for an actor that has ended, and one for a proxy that was stopped.
use ractor_wormhole.Prelude.{
  ℕ, ◌≡◌, refl, ap, ◌∙◌, none, some, false, List, [], ◌∷◌, ◌++◌, length, drop, drop-length, ==_refl,
  if◌then◌else◌,
}
use ractor_wormhole.Prelude.Map.{get, remove, nat_eq, get-remove}
use ractor_wormhole.Outcome.{Outcome, ok, err, panic, send_failed, Bytes}
use ractor_wormhole.Outcome.Action.{lift, ◌>>=◌, bind-lift}
use ractor_wormhole.Portal.Types.{
  RemoteActorId, remote_actor_id_eq, Published, content, send_message, actor_exited, deliver,
  stop_proxy, PortalActorState, open_with,
}
use ractor_wormhole.Portal.Env.{Env}
use ractor_wormhole.Portal.Handle.{handle, on_frame, on_send_message, emit}
use ractor_wormhole.Portal.Protocol.{IsBincode, content-frame, rematerialize_lem}
use ractor_wormhole.Portal.Exit.{exit_stops}
use ractor_wormhole.Proxy.World.{World, turn_on, settled, stop_all, timer_fires}
use ractor_wormhole.Proxy.Call.{
  job_receives, actor_receives, unwrapped, task_forwards, port_answered, MessageCodec,
  msg_rematerialize, outcome_of, in_world,
}

get-removed : {V : Type 0} (k : ℕ) (m : List (ℕ × V)) → get k (remove k m) ≡ none
get-removed k m = get-remove k k m ∙ ap (λ b. if b then none else get k m) (==_refl k)

gone :
    (cell msg : ℕ) (w : World)
    → get cell w.actors ≡ none
    → actor_receives cell msg w ≡ (err send_failed, w)
unfolding actor_receives job_receives
gone cell msg w e = ap (λ o. job_receives cell o msg w) e

module _ (env_a env_b : Env) (codec : MessageCodec) (a : World) (channel : ℕ) where
  -- A message that comes for a published actor which has ended, as the actor of a call has when
  -- its time-out has passed, makes the portal fail: if it is open, bincode decodes what it encoded
  -- and the message type can be read, its handler returns the error of the send, and the portal
  -- runs no more.
  pub handle-fails_late :
      (remote : RemoteActorId) (actor : Published) (value : ℕ) (bytes frame : Bytes)
      → a.portal.channel_state ≡ open_with channel
      → IsBincode env_b (in_world codec (timer_fires actor.cell a) env_a)
      → env_b.encode_to_vec (send_message remote bytes) ≡ ok frame
      → get remote.id a.portal.published_actors ≡ some actor
      → codec.rematerialize bytes ≡ ok value
      → let late = timer_fires actor.cell a in
        (handle (in_world codec late env_a) (content frame) late.portal
          ≡ (err send_failed, a.portal))
        × ((turn_on (in_world codec late env_a) (content frame) late).alive ≡ false)
  unfolding timer_fires turn_on
  handle-fails_late remote actor value bytes frame oa bin enc known read = (
    failed,
    ap
        (λ (r : Outcome (Unit {0}) × PortalActorState).
          (settled late r (drop (length a.portal.effects) r.1.effects)).alive)
        failed,
  )
    where
      late : World
      late = record a { actors = remove actor.cell a.actors }

      env : Env
      env = in_world codec late env_a

      ended : msg_rematerialize codec actor bytes late ≡ (err send_failed, late)
      ended =
          unfold msg_rematerialize in
          bind-lift (codec.rematerialize bytes) (actor_receives actor.cell) late read
          ∙ gone actor.cell value late (get-removed actor.cell a.actors)

      dropped :
          on_frame env channel (send_message remote bytes) a.portal ≡ (err send_failed, a.portal)
      dropped =
          unfold on_frame in
          rw (known, on_send_message)
            (ap
                (λ (r : Outcome (Unit {0})).
                  (lift r >>= (λ _. emit (deliver actor bytes))) a.portal)
                (ap outcome_of ended)
              ∙ unfold ◌>>=◌ in refl)

      failed : handle env (content frame) a.portal ≡ (err send_failed, a.portal)
      failed =
          content-frame env (send_message remote bytes) frame channel a.portal oa
            (rematerialize_lem env_b env (send_message remote bytes) frame bin enc)
          ∙ dropped

module _ (env_a env_b : Env) (b : World) (channel : ℕ) where
  -- If an open portal has read, with bincode decoding what it encoded, that the actor at the other
  -- end has exited, and had a proxy for it, then giving a value to a port whose task sends to this
  -- proxy makes the task panic.
  pub port_answered-panics :
      (port proxy : ℕ) (remote : RemoteActorId) (value : ℕ) (frame : Bytes)
      → b.portal.channel_state ≡ open_with channel
      → IsBincode env_a env_b
      → env_a.encode_to_vec (actor_exited remote) ≡ ok frame
      → get remote b.portal.proxies_for_remote_actors ≡ some proxy
      → get port b.forwards ≡ some proxy
      → port_answered port value (turn_on env_b (content frame) b)
        ≡ (panic, turn_on env_b (content frame) b)
  unfolding port_answered task_forwards turn_on
  port_answered-panics port proxy remote value frame ob bin enc known forwards =
      ap (λ o. task_forwards o value (turn_on env_b (content frame) b)) forwards
      ∙ ap unwrapped (
          gone proxy value (turn_on env_b (content frame) b)
            (ap (get proxy) stopped ∙ get-removed proxy b.actors))
    where
      handled : handle env_b (content frame) b.portal ≡ (
        ok tt,
        record b.portal {
          proxies_for_remote_actors = remove remote b.portal.proxies_for_remote_actors;
          effects = b.portal.effects ++ stop_proxy proxy ∷ [];
        },
      )
      handled =
          content-frame env_b (actor_exited remote) frame channel b.portal ob
            (rematerialize_lem env_a env_b (actor_exited remote) frame bin enc)
          ∙ unfold on_frame in exit_stops b.portal remote proxy known

      stopped : (turn_on env_b (content frame) b).actors ≡ remove proxy b.actors
      stopped =
          ap
            (λ (r : Outcome (Unit {0}) × PortalActorState).
              stop_all (drop (length b.portal.effects) r.1.effects) b.actors)
            handled
          ∙ ap (λ es. stop_all es b.actors) (drop-length b.portal.effects (stop_proxy proxy ∷ []))
          ∙ unfold stop_all in refl
