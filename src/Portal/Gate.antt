-- ===== src/Portal/Gate.antt =====
-- What a portal does not do before the handshake is over.
use ractor_wormhole.Prelude.{
  ℕ, ◌≡◌, refl, subst, sym, Bool, true, false, Option, some, none, List, [], ◌∷◌, map, All,
  All-append, if◌then◌else◌, inl, inr, Option-cases,
}
use ractor_wormhole.Outcome.{ok, err, send_failed, Bytes}
use ractor_wormhole.Outcome.Action.{lift}
use ractor_wormhole.Outcome.Keeps.{Keeps, Keeps-lift, Keeps-pure, Keeps-bind, Keeps-after}
use ractor_wormhole.Portal.Types.{
  Effect, send_content, reply_opened, deliver, spawn_immaterialize, Introduction, PortalActorState,
  Published, PortalActorMessage, handshake, content, close, immaterialize_message, transmit_message,
  publish_named_actor, publish_actor, register_proxy_for_remote_actor, query_named_remote_actor,
  wait_for_handshake, local_actor_exited, PortalConduitState, opening, open_with,
}
use ractor_wormhole.Portal.Env.{Env}
use ractor_wormhole.Portal.Registry.{publish-known, publish-new}
use ractor_wormhole.Portal.Handle.{
  handle, publish, find_published, emit, send_to, on_handshake, on_content, on_wait, named_reply,
  on_publish_named, on_publish, on_query, on_immaterialize, on_transmit, on_register, on_local_exit,
}

-- A content message, a delivery, or a task that encodes a message for the other side. The task that waits
-- for a published actor's end is not among them.
abbrev pub reaches_out : Effect → Bool
reaches_out (send_content bytes) = true
reaches_out (spawn_immaterialize target msg) = true
reaches_out (deliver actor bytes) = true
reaches_out _ = false

-- None of these has happened.
abbrev pub Quiet : PortalActorState → Type 0
Quiet s = All (λ e. reaches_out e ≡ false) s.effects

emit-Quiet : (e : Effect) → reaches_out e ≡ false → Keeps Quiet (emit e)
unfolding emit
emit-Quiet e h = record { at = λ s q. All-append _ s.effects (e ∷ []) q (h, tt) }

send_to-Quiet :
    (env : Env) (port : ℕ) (e : Effect) → reaches_out e ≡ false → Keeps Quiet (send_to env port e)
unfolding send_to
send_to-Quiet env port e h =
    Keeps-bind (emit-Quiet e h)
      (λ _. Keeps-lift (if env.port_open port then ok tt else err send_failed))

publish-Quiet : (env : Env) (actor : Published) → Keeps Quiet (publish env actor)
publish-Quiet env actor = record { at = λ s q. published s q }
  where
    published : (s : PortalActorState) → Quiet s → Quiet (publish env actor s).1
    published s q = elim (Option-cases (find_published actor.cell s.published_actors)) [
      | inr (id, known) ↦ rw (publish-known env actor s known) q
      | inl new ↦ rw (publish-new env actor s new) (All-append _ s.effects _ q (refl, tt))
    ]

replies-Quiet : (ports : List ℕ) → All (λ e. reaches_out e ≡ false) (map reply_opened ports)
replies-Quiet [] = tt
replies-Quiet (p ∷ ps) = (refl, replies-Quiet ps)

module _ (env : Env) (s : PortalActorState) (i : Introduction) (q : Quiet s) where
  on_handshake-Quiet : (text : Bytes) → Quiet (on_handshake env text (opening i) s).1
  unfolding on_handshake
  on_handshake-Quiet text = Keeps-after Quiet (lift (env.parse_introduction text)) s q λ remote.
      record { at = λ s q. All-append _ s.effects _ q (replies-Quiet s.waiting_for_handshake) }

  named_reply-Quiet :
      (id : ℕ) (reply : Option ℕ) (c : PortalConduitState)
      → Keeps Quiet (named_reply env id reply c)
  unfolding named_reply
  named_reply-Quiet id none c = record { at = λ s q. q }
  named_reply-Quiet id (some port) (opening i) = record {
    at = λ s q. (send_to-Quiet env port _ refl).at s q;
  }
  named_reply-Quiet id (some port) (open_with c) = record {
    at = λ s q. (send_to-Quiet env port _ refl).at s q;
  }

  on_publish_named-Quiet :
      (name : Bytes) (actor : Published) (reply : Option ℕ)
      → Quiet (on_publish_named env name actor reply s).1
  unfolding on_publish_named
  on_publish_named-Quiet name actor reply =
      Keeps-after Quiet (publish env actor) s ((publish-Quiet env actor).at s q)
        λ id. record { at = λ t h. (named_reply-Quiet id reply s.channel_state).at _ h }

  on_publish-Quiet :
      (actor : Published) (reply : Option ℕ) → Quiet (on_publish env actor reply (opening i) s).1
  unfolding on_publish
  on_publish-Quiet actor none =
      Keeps-after Quiet (publish env actor) s ((publish-Quiet env actor).at s q)
        (λ _. Keeps-pure tt)
  on_publish-Quiet actor (some port) = q

  -- Whatever message a portal handles before its handshake is over, it sends no content, delivers
  -- nothing to an actor and starts no task that encodes a message for the other side, if it had
  -- done none of that before. The task that waits for a published actor's end is not counted.
  pub handle-Quiet :
      (msg : PortalActorMessage) → s.channel_state ≡ opening i → Quiet (handle env msg s).1
  unfolding handle on_content on_immaterialize on_transmit on_register on_query on_wait
      on_local_exit
  handle-Quiet (handshake text) o =
      subst (λ c. Quiet (on_handshake env text c s).1) (sym o) (on_handshake-Quiet text)
  handle-Quiet (content bytes) o =
      subst (λ c. Quiet (on_content env bytes c s).1) (sym o) ((emit-Quiet _ refl).at s q)
  handle-Quiet close o = (emit-Quiet _ refl).at s q
  handle-Quiet (immaterialize_message target msg) o =
      subst (λ c. Quiet (on_immaterialize target msg c s).1) (sym o) q
  handle-Quiet (transmit_message target bytes) o =
      subst (λ c. Quiet (on_transmit env target bytes c s).1) (sym o) q
  handle-Quiet (publish_named_actor name actor reply) o = on_publish_named-Quiet name actor reply
  handle-Quiet (publish_actor actor reply) o =
      subst (λ c. Quiet (on_publish env actor reply c s).1) (sym o) (on_publish-Quiet actor reply)
  handle-Quiet (register_proxy_for_remote_actor actor cell) o =
      subst (λ c. Quiet (on_register actor cell c s).1) (sym o) q
  handle-Quiet (query_named_remote_actor name port) o =
      subst (λ c. Quiet (on_query env name port c s).1) (sym o) q
  handle-Quiet (wait_for_handshake port) o = subst (λ c. Quiet (on_wait env port c s).1) (sym o) q
  handle-Quiet (local_actor_exited actor) o =
      subst (λ c. Quiet (on_local_exit env actor c s).1) (sym o) q
