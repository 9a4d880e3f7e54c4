-- ===== src/Proxy/Delivery.antt =====
-- A message on its way: what the proxy actor of `instantiate_proxy_for_remote_actor` does with it, what
-- its portal makes of it, and how the portal at the other end delivers it.
use ractor_wormhole.Prelude.{ℕ, ◌≡◌, refl, ap, ◌∙◌, some, true, [], ◌∷◌, ◌++◌}
use ractor_wormhole.Prelude.Map.{get, nat_eq}
use ractor_wormhole.Outcome.{ok, Bytes}
use ractor_wormhole.Outcome.Action.{bind-lift}
use ractor_wormhole.Portal.Types.{
  RemoteActorId, Published, immaterialize_message, transmit_message, content, send_message, Effect,
  spawn_immaterialize, send_content, deliver, PortalActorState, open_with,
}
use ractor_wormhole.Portal.Env.{Env}
use ractor_wormhole.Portal.Handle.{
  handle, on_immaterialize, on_transmit, on_frame, on_send_message, emit, immaterialized,
}
use ractor_wormhole.Portal.Protocol.{IsBincode, rematerialize_lem, content-frame, send_frame-ok}
use ractor_wormhole.Proxy.World.{World}

-- The proxy's loop body: `portal_ref.send_message(ImmaterializeMessage(remote_id, f))`.
unfoldable pub proxy_receives : RemoteActorId → (msg : ℕ) → World → World
proxy_receives id msg w = record w { mailbox = w.mailbox ++ immaterialize_message id msg ∷ [] }

abbrev pub with_effect : PortalActorState → Effect → PortalActorState
with_effect s e = record s { effects = s.effects ++ e ∷ [] }

module _ (env_a env_b : Env) (w : World) (b : PortalActorState) (channel : ℕ) where
  -- A message to the proxy of a published actor arrives at the actor: if both portals are open
  -- with the same channel id, bincode decodes what it encoded and the sink is open, the proxy asks
  -- its portal to encode the message, the portal starts the task, the task's bytes are sent as a
  -- frame, and the other portal, which can read the bytes for the actor's type, delivers them to
  -- the actor.
  pub message-delivered :
      (target : RemoteActorId) (msg : ℕ) (bytes frame : Bytes) (actor : Published)
      → w.portal.channel_state ≡ open_with channel
      → b.channel_state ≡ open_with channel
      → IsBincode env_a env_b
      → env_a.encode_to_vec (send_message target bytes) ≡ ok frame
      → env_a.sink_open ≡ true
      → get target.id b.published_actors ≡ some actor
      → env_b.rematerialize actor bytes ≡ ok tt
      → let a = w.portal in
        let started = with_effect a (spawn_immaterialize target msg) in
        ((proxy_receives target msg w).mailbox ≡ w.mailbox ++ immaterialize_message target msg ∷ [])
        × (handle env_a (immaterialize_message target msg) a ≡ (ok tt, started))
        × (immaterialized target (ok bytes) ≡ some (transmit_message target bytes))
        × (handle env_a (transmit_message target bytes) started
            ≡ (ok tt, with_effect started (send_content frame)))
        × (handle env_b (content frame) b ≡ (ok tt, with_effect b (deliver actor bytes)))
  unfolding proxy_receives handle on_immaterialize on_transmit immaterialized emit
  message-delivered target msg bytes frame actor oa ob bin enc up known readable = (
    refl,
    ap (λ c. on_immaterialize target msg c w.portal) oa,
    refl,
    ap (λ c. on_transmit env_a target bytes c started) oa
        ∙ send_frame-ok env_a (send_message target bytes) frame started enc up,
    content-frame env_b (send_message target bytes) frame channel b ob
          (rematerialize_lem env_a env_b (send_message target bytes) frame bin enc)
        ∙ delivered,
  )
    where
      started : PortalActorState
      started = with_effect w.portal (spawn_immaterialize target msg)

      delivered :
          on_frame env_b channel (send_message target bytes) b
          ≡ (ok tt, with_effect b (deliver actor bytes))
      delivered =
          unfold on_frame in
          rw (known, on_send_message)
            (bind-lift (env_b.rematerialize actor bytes) (λ _. emit (deliver actor bytes)) b
              readable)
