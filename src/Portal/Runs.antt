-- ===== src/Portal/Runs.antt =====
-- The runs of a portal: what any sequence of messages leads to, from `pre_start` on.
use ractor_wormhole.Prelude.{
  ℕ, ◌+◌, ◌^◌, ◌<◌, ◌≡◌, ◌⊎◌, refl, sym, ap, subst, none, inl, inr, Bool-cases,
}
use ractor_wormhole.Prelude.Map.{get, nat_eq, bytes_eq}
use ractor_wormhole.Outcome.{Outcome, ok, Bytes}
use ractor_wormhole.Portal.Types.{
  remote_actor_id_eq, Introduction, PortalActorState, PortalActorMessage, handshake,
  PortalConduitState, opening, open_with, send_handshake,
}
use ractor_wormhole.Portal.Env.{Env}
use ractor_wormhole.Portal.InState.{InState, handle-InState}
use ractor_wormhole.Portal.Invariant.{Inv, initial-Inv, emit-Keeps}
use ractor_wormhole.Portal.Invariant.Handlers.{handle-Inv}
use ractor_wormhole.Portal.Gate.{Quiet, handle-Quiet}
use ractor_wormhole.Portal.Handle.{handle, emit, on_handshake, pre_start, initial}

-- The portal is open with this id.
abbrev OpenWith : ℕ → PortalActorState → Type 0
OpenWith c = InState (open_with c)

module _ (c : ℕ) (env : Env) (s : PortalActorState) (o : OpenWith c s) where
  reshaken : (text : Bytes) → OpenWith c (handle env (handshake text) s).1
  unfolding handle on_handshake emit
  reshaken text = subst (λ k. OpenWith c (on_handshake env text k s).1) (sym o) o

  -- A portal that is open stays open with the same channel id whatever message it handles, also
  -- where the handler fails.
  pub handle-OpenWith : (msg : PortalActorMessage) → OpenWith c (handle env msg s).1
  handle-OpenWith =
      handle-InState (open_with c) env s o (λ msg. OpenWith c (handle env msg s).1) reshaken
        (λ msg kept. kept)

-- A portal that has run: `pre_start`, and then messages, each handled without an error, since the
-- first error stops the actor.
pub data Run : PortalActorState → Type 0 where
  started :
      (env : Env) (i : Introduction) (s : PortalActorState)
      → pre_start env i (initial i) ≡ (ok tt, s)
      → Run s
  handled :
      (env : Env) (msg : PortalActorMessage) (s s' : PortalActorState)
      → Run s
      → get env.fresh_uuid s.published_actors ≡ none
      → s.next_request_id + 1 < 2 ^ 64
      → handle env msg s ≡ (ok tt, s')
      → Run s'

pre_start-keeps :
    (env : Env) (i : Introduction)
    → Inv (pre_start env i (initial i)).1 × Quiet (pre_start env i (initial i)).1
unfolding pre_start emit
pre_start-keeps env i = elim (Bool-cases env.sink_open) [
  | inl up ↦ rw up ((emit-Keeps (send_handshake i)).at (initial i) (initial-Inv i), (refl, tt))
  | inr down ↦ rw down (initial-Inv i, tt)
]

pub state_after :
    {r : Outcome (Unit {0}) × PortalActorState} {s : PortalActorState} → r ≡ (ok tt, s) → r.1 ≡ s
state_after e = ap (λ (r : Outcome (Unit {0}) × PortalActorState). r.1) e

-- In every state that a portal reaches from `pre_start` by handling messages without an error, in
-- any order and with any answers of the libraries, the invariant holds; each step draws a new uuid
-- and starts with the request counter below its last value.
pub Run-Inv : (s : PortalActorState) → Run s → Inv s
Run-Inv t (started env i s e) = subst Inv (state_after e) (pre_start-keeps env i).0
Run-Inv t (handled env msg s s' run fresh below e) =
    subst Inv (state_after e) (handle-Inv env s fresh (Run-Inv s run) msg below)

State-cases :
    (k : PortalConduitState)
    → ((i : Introduction) × (k ≡ opening i)) ⊎ ((c : ℕ) × (k ≡ open_with c))
State-cases (opening i) = inl (i, refl)
State-cases (open_with c) = inr (c, refl)

-- In every state of such a run in which the portal is still opening, it has sent no content,
-- delivered nothing and started no task that would send something, whatever messages came.
pub Run-Quiet :
    (s : PortalActorState) (i : Introduction) → Run s → s.channel_state ≡ opening i → Quiet s
Run-Quiet t i (started env j s e) o = subst Quiet (state_after e) (pre_start-keeps env j).1
Run-Quiet t i (handled env msg s s' run fresh below e) o = elim (State-cases s.channel_state) [
  | inl (j, e_k) ↦
      subst Quiet (state_after e) (handle-Quiet env s j (Run-Quiet s j run e_k) msg e_k)
  | inr (c, e_k) ↦
      let opened = subst (OpenWith c) (state_after e) (handle-OpenWith c env s e_k msg) in
      absurd (cc)
]
