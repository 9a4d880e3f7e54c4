-- ===== src/Portal/Exit.antt =====
-- Publishing an actor, sending to it, and its end.
use ractor_wormhole.Prelude.{
  ℕ, ◌≡◌, ap, ◌∙◌, true, some, none, [], ◌∷◌, ◌++◌, ==_iff, if◌then◌else◌, length,
}
use ractor_wormhole.Prelude.Map.{get, insert, remove, nat_eq, beq_refl, get-insert, get-remove}
use ractor_wormhole.Outcome.{ok, Bytes}
use ractor_wormhole.Outcome.Action.{bind-eq}
use ractor_wormhole.Portal.Types.{
  RemoteActorId, remote_actor_id_eq, actor_exited, send_content, stop_proxy, Published, watch,
  PortalActorState, content, local_actor_exited, register_proxy_for_remote_actor, open_with,
  reply_published, publish_actor,
}
use ractor_wormhole.Portal.Env.{Env}
use ractor_wormhole.Portal.Handle.{
  handle, on_frame, on_local_exit, on_actor_exited, on_register, on_publish, find_published,
  remote_id, publish,
}
use ractor_wormhole.Portal.Registry.{publish-new, publish-known, find_published-insert}
use ractor_wormhole.Portal.Protocol.{
  IsBincode, rematerialize_lem, rematerialize_exact, send_to-ok, content-frame, send_frame-ok,
}

pub exit_stops :
    (s : PortalActorState) (actor : RemoteActorId) (cell : ℕ)
    → get actor s.proxies_for_remote_actors ≡ some cell
    → on_actor_exited actor s ≡ (
      ok tt,
      record s {
        proxies_for_remote_actors = remove actor s.proxies_for_remote_actors;
        effects = s.effects ++ stop_proxy cell ∷ [];
      },
    )
unfolding on_actor_exited
exit_stops s actor cell h = rw (h, on_actor_exited)

exit_sent :
    (env : Env) (s : PortalActorState) (channel actor id : ℕ) (frame : Bytes)
    → find_published actor s.published_actors ≡ some id
    → env.encode_to_vec (actor_exited (remote_id s channel id)) ≡ ok frame
    → env.sink_open ≡ true
    → on_local_exit env actor (open_with channel) s
      ≡ (ok tt, record s { effects = s.effects ++ send_content frame ∷ [] })
unfolding on_local_exit
exit_sent env s channel actor id frame known e up =
    rw (known, on_local_exit) (send_frame-ok env _ frame s e up)

-- If an actor exits that an open portal has published, and the frame can be encoded and sent, the
-- portal sends its remote id, and the other portal, which has a proxy under this id, stops the
-- proxy and forgets it.
pub exit_reaches_proxy :
    (env_a env_b : Env) (a b : PortalActorState) (channel actor id cell : ℕ) (frame : Bytes)
    → a.channel_state ≡ open_with channel
    → b.channel_state ≡ open_with channel
    → find_published actor a.published_actors ≡ some id
    → get (remote_id a channel id) b.proxies_for_remote_actors ≡ some cell
    → IsBincode env_a env_b
    → env_a.encode_to_vec (actor_exited (remote_id a channel id)) ≡ ok frame
    → env_a.sink_open ≡ true
    → (handle env_a (local_actor_exited actor) a
        ≡ (ok tt, record a { effects = a.effects ++ send_content frame ∷ [] }))
      × (handle env_b (content frame) b ≡ (
        ok tt,
        record b {
          proxies_for_remote_actors = remove (remote_id a channel id) b.proxies_for_remote_actors;
          effects = b.effects ++ stop_proxy cell ∷ [];
        },
      ))
unfolding handle on_frame
exit_reaches_proxy env_a env_b a b channel actor id cell frame oa ob known proxy codec e up = (
  ap (λ c. on_local_exit env_a actor c a) oa ∙ exit_sent env_a a channel actor id frame known e up,
  content-frame env_b _ frame channel b ob (rematerialize_lem env_a env_b _ frame codec e)
      ∙ exit_stops b _ cell proxy,
)

-- The state after a proxy is registered.
abbrev with_proxy : PortalActorState → RemoteActorId → ℕ → PortalActorState
with_proxy s actor cell = record s {
  proxies_for_remote_actors = insert actor cell s.proxies_for_remote_actors;
}

proxy_registered :
    (env : Env) (s : PortalActorState) (channel : ℕ) (actor : RemoteActorId) (cell : ℕ)
    → s.channel_state ≡ open_with channel
    → handle env (register_proxy_for_remote_actor actor cell) s ≡ (ok tt, with_proxy s actor cell)
unfolding handle on_register
proxy_registered env s channel actor cell o = ap (λ c. on_register actor cell c s) o

-- If two proxies are registered for the same remote actor on an open portal and the actor then
-- exits, only the second proxy is stopped, and no proxy for the actor is known any more.
pub register_twice :
    (env_1 env_2 env_3 : Env) (s : PortalActorState) (channel : ℕ) (actor : RemoteActorId)
    (first second : ℕ) (frame : Bytes)
    → s.channel_state ≡ open_with channel
    → env_3.decode_from_slice frame ≡ ok (actor_exited actor, length frame)
    → let s_1 = with_proxy s actor first in
      let s_2 = with_proxy s_1 actor second in
      let left = remove actor s_2.proxies_for_remote_actors in
      (handle env_1 (register_proxy_for_remote_actor actor first) s ≡ (ok tt, s_1))
      × (handle env_2 (register_proxy_for_remote_actor actor second) s_1 ≡ (ok tt, s_2))
      × (handle env_3 (content frame) s_2 ≡ (
        ok tt,
        record s_2 {
          proxies_for_remote_actors = left;
          effects = s.effects ++ stop_proxy second ∷ [];
        },
      ))
      × (get actor left ≡ none)
unfolding on_frame
register_twice env_1 env_2 env_3 s channel actor first second frame o d =
    let s_1 = with_proxy s actor first in
    let s_2 = with_proxy s_1 actor second in
    (
      proxy_registered env_1 s channel actor first o,
      proxy_registered env_2 s_1 channel actor second o,
      content-frame env_3 (actor_exited actor) frame channel s_2 o
            (rematerialize_exact env_3 _ frame d)
          ∙ exit_stops s_2 actor second (
              get-insert actor actor second s_1.proxies_for_remote_actors
              ∙ ap (λ t. if t then some second else get actor s_1.proxies_for_remote_actors)
                  (beq_refl actor)),
      get-remove actor actor s_2.proxies_for_remote_actors
          ∙ ap (λ t. if t then none else get actor s_2.proxies_for_remote_actors) (beq_refl actor),
    )

-- An open portal that is asked twice to publish the same actor, with a new uuid and both reply
-- ports open, answers both times with the id drawn the first time, keeps one entry, and watches
-- the actor once.
pub publish_twice :
    (env_1 env_2 : Env) (s : PortalActorState) (channel port_1 port_2 : ℕ) (actor again : Published)
    → s.channel_state ≡ open_with channel
    → actor.cell ≡ again.cell
    → find_published actor.cell s.published_actors ≡ none
    → get env_1.fresh_uuid s.published_actors ≡ none
    → env_1.port_open port_1 ≡ true
    → env_2.port_open port_2 ≡ true
    → let id = remote_id s channel env_1.fresh_uuid in
      let s_1 = record s {
        published_actors = insert env_1.fresh_uuid actor s.published_actors;
        effects = (s.effects ++ watch actor.cell ∷ []) ++ reply_published port_1 id ∷ [];
      } in
      (handle env_1 (publish_actor actor (some port_1)) s ≡ (ok tt, s_1))
      × (handle env_2 (publish_actor again (some port_2)) s_1
          ≡ (ok tt, record s_1 { effects = s_1.effects ++ reply_published port_2 id ∷ [] }))
unfolding handle on_publish
publish_twice env_1 env_2 s channel port_1 port_2 actor again o same new fresh p1 p2 = (
  ap (λ c. on_publish env_1 actor (some port_1) c s) o
      ∙ bind-eq (publish env_1 actor) _ (publish-new env_1 actor s new)
      ∙ send_to-ok env_1 port_1 _ _ p1,
  ap (λ c. on_publish env_2 again (some port_2) c s_1) o
      ∙ bind-eq (publish env_2 again) _ (publish-known env_2 again s_1 known)
      ∙ send_to-ok env_2 port_2 _ s_1 p2,
)
  where
    s_1 : PortalActorState
    s_1 = record s {
      published_actors = insert env_1.fresh_uuid actor s.published_actors;
      effects =
          (s.effects ++ watch actor.cell ∷ [])
          ++ reply_published port_1 (remote_id s channel env_1.fresh_uuid) ∷ [];
    }

    known : find_published again.cell s_1.published_actors ≡ some env_1.fresh_uuid
    known =
        find_published-insert env_1.fresh_uuid actor again.cell s.published_actors fresh
          (rw (← same) new)
        ∙ ap (λ t. if t then some env_1.fresh_uuid else none)
            ((==_iff actor.cell again.cell).1 same)
