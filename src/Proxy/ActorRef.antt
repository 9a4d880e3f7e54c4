-- ===== src/Proxy/ActorRef.antt =====
-- An `ActorRef` in a message: `immaterialize_actor_ref` and `rematerialize_actor_ref` of
-- transmaterialization/mod.rs.
use ractor_wormhole.Prelude.{
  ℕ, suc, Bool, ◌≡◌, refl, ap, ap₂, ◌∙◌, Option, none, some, true, false, not, List, [], ◌∷◌, ◌++◌,
  length, drop, drop-length, append_assoc, sym, subst, inl, inr, Option-cases, if◌then◌else◌,
  ==_refl, arith,
}
use ractor_wormhole.Prelude.Map.{insert, nat_eq}
use ractor_wormhole.Outcome
use ractor_wormhole.Outcome.{Outcome, ok, err, Bytes}
use ractor_wormhole.Outcome.Action.{lift, pure, ◌>>=◌, bind-eq, bind-lift}
use ractor_wormhole.Transmaterialization.Util.{require_buffer_size, require_buffer_size-eq}
use ractor_wormhole.Transmaterialization.Codec.{Transmaterializable}
use ractor_wormhole.Portal.Types.{
  RemoteActorId, Published, PortalActorMessage, publish_actor, register_proxy_for_remote_actor,
  Effect, watch, reply_published, PortalActorState, open_with,
}
use ractor_wormhole.Portal.Env.{Env}
use ractor_wormhole.Portal.Registry.{publish-known, publish-new}
use ractor_wormhole.Portal.Handle.{handle, publish, on_publish, remote_id, find_published}
use ractor_wormhole.Portal.Protocol.{send_to-ok}
use ractor_wormhole.Proxy.World.{
  World, Job, forward_to, awaited, answered, settled, asking, stop_all, stops_portal, turn_on,
  run_portal, reply_to, ask_publish, send_message_to_portal, spawn_linked, register_proxy,
  instantiate_proxy_for_remote_actor,
}

-- bincode, for a `RemoteActorId`.
pub record IdCodec : Type 0 where
  pub encode_to_vec : RemoteActorId → Outcome Bytes
  pub decode_from_slice : Bytes → Outcome (RemoteActorId × ℕ)

unfoldable pub immaterialize_id : IdCodec → RemoteActorId → Outcome Bytes
immaterialize_id codec id = codec.encode_to_vec id

unfoldable pub rematerialize_id : IdCodec → Bytes → Outcome RemoteActorId
rematerialize_id codec bytes =
    Outcome.◌>>=◌ (codec.decode_from_slice bytes)
      (λ r. Outcome.◌>>◌ (require_buffer_size bytes r.1) (ok r.0))

-- `receiver` is the rematerializer of the actor's message type.
unfoldable pub actor_ref : (ℕ → Env) → IdCodec → (receiver : ℕ) → Transmaterializable World ℕ
unfolding ask_publish immaterialize_id rematerialize_id instantiate_proxy_for_remote_actor
actor_ref env codec receiver = record {
  immaterialize = λ cell. do
    id ← ask_publish env (record { cell = cell; receiver = receiver })
    lift (immaterialize_id codec id);
  rematerialize = λ buffer. do
    id ← lift (rematerialize_id codec buffer)
    instantiate_proxy_for_remote_actor id;
}

reply_to-append :
    (port : ℕ) (id : RemoteActorId) (es : List Effect)
    → reply_to port es ≡ none
    → reply_to port (es ++ reply_published port id ∷ []) ≡ some id
unfolding reply_to
reply_to-append port id [] h = rw (==_refl port)
reply_to-append port id (reply_published q j ∷ es) h = ground (arith, reply_to-append port id es)
reply_to-append port id (_ ∷ es) h = reply_to-append port id es h

if_true : {A : Type 0} {b : Bool} (x y : A) → b ≡ true → (if b then x else y) ≡ x
if_true x y e = ap (λ c. if c then x else y) e

-- The new effects stop neither an actor nor the portal.
Calm : List Effect → List Effect → Type 0
Calm before after =
    (actors : List (ℕ × Job))
    → (stop_all (drop (length before) after) actors ≡ actors)
      × (stops_portal (drop (length before) after) ≡ false)

publish-Calm :
    (env : Env) (actor : Published) (s s' : PortalActorState) (id port : ℕ) (sent : RemoteActorId)
    → publish env actor s ≡ (ok id, s')
    → Calm s.effects (s'.effects ++ reply_published port sent ∷ [])
unfolding Calm stop_all stops_portal
publish-Calm env actor s s' id port sent e =
    elim (Option-cases (find_published actor.cell s.published_actors)) [
      | inr (j, known) ↦
          subst (λ (t : PortalActorState). Calm s.effects (t.effects ++ reply ∷ []))
            (ap (λ r. r.1) (sym (publish-known env actor s known) ∙ e))
            (λ actors. rw (drop-length s.effects (reply ∷ [])) (refl, refl))
      | inl new ↦
          subst (λ (t : PortalActorState). Calm s.effects (t.effects ++ reply ∷ []))
            (ap (λ r. r.1) (sym (publish-new env actor s new) ∙ e))
            (λ actors.
              rw (append_assoc s.effects (watch actor.cell ∷ []) (reply ∷ []))
                (rw (drop-length s.effects (watch actor.cell ∷ reply ∷ [])) (refl, refl)))
    ]
  where
    reply : Effect
    reply = reply_published port sent

-- The sender's world after the portal has answered.
abbrev pub after_publish : World → PortalActorState → RemoteActorId → World
after_publish w s id = record w {
  portal = record s { effects = s.effects ++ reply_published w.next_port id ∷ [] };
  alive = true;
  mailbox = [];
  turn = suc w.turn;
  next_port = suc w.next_port;
}

-- An open portal answers the request with the id under which the actor is published.
pub ask_publish-ok :
    (env : ℕ → Env) (actor : Published) (w : World) (channel id : ℕ) (s : PortalActorState)
    → w.alive ≡ true
    → w.mailbox ≡ []
    → w.portal.channel_state ≡ open_with channel
    → publish (env w.turn) actor w.portal ≡ (ok id, s)
    → reply_to w.next_port s.effects ≡ none
    → (env w.turn).port_open w.next_port ≡ true
    → ask_publish env actor w
      ≡ (ok (remote_id w.portal channel id), after_publish w s (remote_id w.portal channel id))
unfolding ask_publish Calm
ask_publish-ok env actor w channel id s runs empty o published new up =
    if_true _ _ runs
    ∙ ap (λ (v : World). (answered w.next_port v, v)) ran
    ∙ ap (λ (a : Option RemoteActorId). (awaited a, after_publish w s sent))
        (reply_to-append w.next_port sent s.effects new)
  where
    sent : RemoteActorId
    sent = remote_id w.portal channel id

    answer : PortalActorState
    answer = record s { effects = s.effects ++ reply_published w.next_port sent ∷ [] }

    handled :
        handle (env w.turn) (publish_actor actor (some w.next_port)) w.portal ≡ (ok tt, answer)
    handled =
        unfold handle in
        unfold on_publish in
        ap (λ c. on_publish (env w.turn) actor (some w.next_port) c w.portal) o
        ∙ bind-eq (publish (env w.turn) actor) _ published
        ∙ send_to-ok (env w.turn) w.next_port _ s up

    calm : Calm w.portal.effects answer.effects
    calm = publish-Calm (env w.turn) actor w.portal s id w.next_port sent published

    turned :
        turn_on (env w.turn) (publish_actor actor (some w.next_port)) (asking w)
        ≡ after_publish w s sent
    turned =
        unfold turn_on in
        ap
          (λ (r : Outcome (Unit {0}) × PortalActorState).
            settled (asking w) r (drop (length w.portal.effects) r.1.effects))
          handled
        ∙ ap₂
            (λ (stops : Bool) (actors : List (ℕ × Job)). record (after_publish w s sent) {
              alive = not stops;
              actors = actors;
            })
            (calm w.actors).1 (calm w.actors).0

    ran :
        run_portal env (w.mailbox ++ publish_actor actor (some w.next_port) ∷ []) (asking w)
        ≡ after_publish w s sent
    ran =
        ap (λ m. run_portal env (m ++ publish_actor actor (some w.next_port) ∷ []) (asking w)) empty
        ∙ unfold run_portal in if_true _ _ runs ∙ turned

rematerialize_id-exact :
    (codec : IdCodec) (id : RemoteActorId) (bytes : Bytes)
    → codec.decode_from_slice bytes ≡ ok (id, length bytes)
    → rematerialize_id codec bytes ≡ ok id
unfolding rematerialize_id
rematerialize_id-exact codec id bytes e =
    rw e (rw (require_buffer_size-eq bytes (length bytes) refl))

-- The receiver's world with the proxy.
abbrev pub with_proxy : World → RemoteActorId → World
with_proxy w id = record w {
  mailbox = w.mailbox ++ register_proxy_for_remote_actor id w.next_cell ∷ [];
  actors = insert w.next_cell (forward_to id) w.actors;
  next_cell = suc w.next_cell;
}

pub spawn_linked-ok :
    (job : Job) (w : World)
    → w.spawns w.next_cell ≡ true
    → spawn_linked job w ≡ (
      ok w.next_cell,
      record w { actors = insert w.next_cell job w.actors; next_cell = suc w.next_cell },
    )
unfolding spawn_linked
spawn_linked-ok job w starts = if_true _ _ starts

send_message-ok :
    (msg : PortalActorMessage) (w : World)
    → w.alive ≡ true
    → send_message_to_portal msg w ≡ (ok tt, record w { mailbox = w.mailbox ++ msg ∷ [] })
unfolding send_message_to_portal
send_message-ok msg w runs = if_true _ _ runs

pub instantiate_proxy-ok :
    (w : World) (id : RemoteActorId)
    → w.alive ≡ true
    → w.spawns w.next_cell ≡ true
    → instantiate_proxy_for_remote_actor id w ≡ (ok w.next_cell, with_proxy w id)
unfolding instantiate_proxy_for_remote_actor
instantiate_proxy-ok w id running starts =
    bind-eq (spawn_linked (forward_to id)) (register_proxy id) {s = w}
      (spawn_linked-ok (forward_to id) w starts)
    ∙ bind-eq (send_message_to_portal (register_proxy_for_remote_actor id w.next_cell))
        (λ _. pure w.next_cell) {s = started}
        (send_message-ok (register_proxy_for_remote_actor id w.next_cell) started running)
  where
    started : World
    started = record w {
      actors = insert w.next_cell (forward_to id) w.actors;
      next_cell = suc w.next_cell;
    }

module _ (env_a env_b : ℕ → Env) (codec : IdCodec) (receiver : ℕ) (a b : World) where
  -- If the sender's portal runs, is open and has no message to handle, publishes the actor, and
  -- has given no answer to the port that it is asked with, which is open, if bincode decodes the
  -- id that it encoded, and if the receiver's portal runs and the runtime starts its proxy, then
  -- an `ActorRef` is sent as the actor's remote id and received as a new local actor that forwards
  -- to this id and that the receiver's portal is told of.
  pub actor_ref-Crosses :
      (cell channel id : ℕ) (s : PortalActorState) (bytes : Bytes)
      → a.alive ≡ true
      → a.mailbox ≡ []
      → a.portal.channel_state ≡ open_with channel
      → publish (env_a a.turn) (record { cell = cell; receiver = receiver }) a.portal ≡ (ok id, s)
      → reply_to a.next_port s.effects ≡ none
      → (env_a a.turn).port_open a.next_port ≡ true
      → codec.encode_to_vec (remote_id a.portal channel id) ≡ ok bytes
      → codec.decode_from_slice bytes ≡ ok (remote_id a.portal channel id, length bytes)
      → b.alive ≡ true
      → b.spawns b.next_cell ≡ true
      → ((actor_ref env_a codec receiver).immaterialize cell a
          ≡ (ok bytes, after_publish a s (remote_id a.portal channel id)))
        × ((actor_ref env_b codec receiver).rematerialize bytes b
            ≡ (ok b.next_cell, with_proxy b (remote_id a.portal channel id)))
  unfolding actor_ref immaterialize_id
  actor_ref-Crosses cell channel id s bytes runs empty o published new up e d running starts = (
    bind-eq (ask_publish env_a (record { cell = cell; receiver = receiver })) _ (
          ask_publish-ok env_a (record { cell = cell; receiver = receiver }) a channel id s runs
            empty o published new up)
        ∙ ap (λ (r : Outcome Bytes). (r, after_publish a s (remote_id a.portal channel id))) e,
    bind-lift (rematerialize_id codec bytes) _ b
          (rematerialize_id-exact codec (remote_id a.portal channel id) bytes d)
        ∙ instantiate_proxy-ok b (remote_id a.portal channel id) running starts,
  )
