-- ===== src/Portal/Invariant.antt =====
-- The invariant of a portal, and the steps that the handlers share.
pub mod Handlers
use ractor_wormhole.Prelude.{
  ℕ, suc, ◌+◌, ◌%◌, ◌^◌, ◌<◌, ◌≡◌, refl, ap, ◌⊎◌, inl, inr, Option, some, none, List, [], ◌∷◌,
  arith, Option-cases, Bool-cases, ◌==◌, ==_refl, if◌then◌else◌,
}
use native.Mathlib.Nat.{mod-eq_of_lt}
use ractor_wormhole.Prelude.Map.{get, insert, remove, nat_eq, bytes_eq, get-insert, get-remove}
use ractor_wormhole.Outcome.{Outcome, ok, err, send_failed, Bytes}
use ractor_wormhole.Outcome.Action.{Action, lift, pure}
use ractor_wormhole.Outcome.Keeps.{
  Keeps, Keeps-lift, Keeps-pure, Keeps-bind, Keeps-after, Keeps-lift-bind, Keeps-if,
}
use ractor_wormhole.Portal.Types.{
  RemoteActorId, Answer, CrossPortalMessage, request_actor_by_name, response_actor_by_name,
  response_actor_by_id, send_message, actor_exited, Published, Effect, Introduction,
  PortalActorState, PortalActorMessage, handshake, content, close, immaterialize_message,
  transmit_message, publish_named_actor, publish_actor, register_proxy_for_remote_actor,
  query_named_remote_actor, wait_for_handshake, local_actor_exited, PortalConduitState, opening,
  open_with, reply_queried, send_content,
}
use ractor_wormhole.Portal.Env.{Env}
use ractor_wormhole.Portal.Wire.{immaterialize, rematerialize}
use ractor_wormhole.Portal.Handle.{
  Portal, handle, find_published, publish, emit, modify, send_to, send_frame, on_handshake,
  answer_request, on_response, on_send_message, on_actor_exited, on_frame, on_content, on_wait,
  named_reply, on_publish_named, on_publish, on_query, on_immaterialize, on_transmit, on_register,
  on_local_exit, initial,
}
use ractor_wormhole.Portal.Registry.{
  Distinct, insert-Distinct, find_published-get, publish-known, publish-new,
}

abbrev pub IsRegistered : List (ℕ × Published) → ℕ → Type 0
IsRegistered m id = (entry : Published) × (get id m ≡ some entry)

-- Who waits for the handshake: nobody, once it is over.
abbrev pub WaitsIn : PortalConduitState → List ℕ → Type 0
WaitsIn (opening i) waiting = Unit {0}
WaitsIn (open_with channel_id) waiting = waiting ≡ []

pub record Inv (s : PortalActorState) : Type 0 where
  -- an actor is published under one id
  pub distinct : Distinct s.published_actors
  -- a name leads to a published actor
  pub registered :
      (name : Bytes) (id : ℕ)
      → get name s.named_actors ≡ some id
      → IsRegistered s.published_actors id
  -- a request that is open has an id that was given out
  pub below : (id port : ℕ) → get id s.open_requests ≡ some port → id < s.next_request_id
  pub idle : WaitsIn s.channel_state s.waiting_for_handshake

pub initial-Inv : (i : Introduction) → Inv (initial i)
unfolding get
initial-Inv i = record {
  distinct = tt;
  registered = λ name id e. cc;
  below = λ id port e. cc;
  idle = tt;
}

module _ {s : PortalActorState} where
  pub emit-Inv : (e : Effect) → Inv s → Inv (emit e s).1
  unfolding emit
  emit-Inv e v = record {
    distinct = v.distinct;
    registered = v.registered;
    below = v.below;
    idle = v.idle;
  }

pub emit-Keeps : (e : Effect) → Keeps Inv (emit e)
emit-Keeps e = record { at = λ s v. emit-Inv {s = s} e v }

pub send_to-Keeps : (env : Env) (port : ℕ) (e : Effect) → Keeps Inv (send_to env port e)
unfolding send_to
send_to-Keeps env port e =
    Keeps-bind (emit-Keeps e)
      (λ _. Keeps-lift (if env.port_open port then ok tt else err send_failed))

pub send_frame-Keeps : (env : Env) (msg : CrossPortalMessage) → Keeps Inv (send_frame env msg)
unfolding send_frame
send_frame-Keeps env msg = Keeps-lift-bind (immaterialize env msg) (λ bytes.
    Keeps-if env.sink_open (emit-Keeps (send_content bytes)) (Keeps-lift (err send_failed)))

pub IsRegistered-insert :
    (id k : ℕ) (v : Published) (m : List (ℕ × Published))
    → IsRegistered m id
    → IsRegistered (insert k v m) id
IsRegistered-insert id k v m (entry, e) = elim (Bool-cases (k == id)) [
  | inl same ↦ (v, rw (get-insert k id v m) (rw same))
  | inr other ↦ (entry, rw (get-insert k id v m) (rw other e))
]

module _ (env : Env) (actor : Published) (s : PortalActorState)
    (fresh : get env.fresh_uuid s.published_actors ≡ none) (v : Inv s) where
  -- After `publish_actor` the id that it returns is registered.
  pub publish-Inv :
      (id : ℕ) × ((publish env actor s).0 ≡ ok id)
      × Inv (publish env actor s).1
      × IsRegistered (publish env actor s).1.published_actors id
  publish-Inv = elim (Option-cases (find_published actor.cell s.published_actors)) [
    | inr (id, known) ↦
        rw (publish-known env actor s known)
          (id, refl, v, find_published-get actor.cell id s.published_actors known)
    | inl new ↦ rw (publish-new env actor s new) (
      env.fresh_uuid,
      refl,
      record {
        distinct = insert-Distinct env.fresh_uuid actor s.published_actors fresh new v.distinct;
        registered = λ name id e.
            IsRegistered-insert id env.fresh_uuid actor s.published_actors (v.registered name id e);
        below = v.below;
        idle = v.idle;
      },
      (
        actor,
        rw (get-insert env.fresh_uuid env.fresh_uuid actor s.published_actors)
            (rw (==_refl env.fresh_uuid)),
      ),
    )
  ]
