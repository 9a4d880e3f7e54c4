-- ===== src/Portal/Sides.antt =====
-- The two portals of one conduit, each through a run of its own: a conduit gives a portal no handshake but
-- the other side's, whatever else comes and in whichever order.
use ractor_wormhole.Prelude.{ℕ, ◌≡◌, ◌⊎◌, refl, sym, ap, subst, ◌∙◌, inl, inr, Bool-cases, All}
use ractor_wormhole.Prelude.Map.{nat_eq, bytes_eq}
use ractor_wormhole.Outcome.{ok, Bytes}
use ractor_wormhole.Transmaterialization.LeBytes.{IsByte, from_le_bytes}
use ractor_wormhole.Portal.Types.{
  Introduction, PortalActorState, PortalActorMessage, handshake, opening, open_with,
}
use ractor_wormhole.Portal.Env.{Env}
use ractor_wormhole.Portal.Xor.{xor_arrays_comm}
use ractor_wormhole.Portal.InState.{InState, handle-InState}
use ractor_wormhole.Portal.Runs.{handle-OpenWith, state_after}
use ractor_wormhole.Portal.Handle.{handle, emit, on_handshake, pre_start, initial, channel_id_of}

module _ (env : Env) (i : Introduction) (s : PortalActorState) (o : InState (opening i) s) where
  handle-handshake :
      (text : Bytes) (remote : Introduction)
      → env.parse_introduction text ≡ ok remote
      → InState (open_with (channel_id_of i remote)) (handle env (handshake text) s).1
  unfolding handle on_handshake
  handle-handshake text remote p = rw (o, on_handshake) (rw p refl)

-- A handshake is the other side's; what else a portal handles is free.
abbrev pub Allowed : Bytes → PortalActorMessage → Type 0
Allowed text (handshake t) = t ≡ text
Allowed text msg = Unit {0}

-- The states that one side reaches, from `pre_start` on: `text` is the other side's introduction, as it
-- was sent.
pub data Side (self remote : Introduction) (text : Bytes) : PortalActorState → Type 0 where
  started :
      (env : Env) (s : PortalActorState)
      → pre_start env self (initial self) ≡ (ok tt, s)
      → Side self remote text s
  handled :
      (env : Env) (msg : PortalActorMessage) (s s' : PortalActorState)
      → Side self remote text s
      → env.parse_introduction text ≡ ok remote
      → Allowed text msg
      → handle env msg s ≡ (ok tt, s')
      → Side self remote text s'

module _ (self remote : Introduction) (text : Bytes) where
  -- It is opening with its own introduction, or open with the id of both.
  abbrev OneOf : PortalActorState → Type 0
  OneOf s = InState (opening self) s ⊎ InState (open_with (channel_id_of self remote)) s

  handle-OneOf :
      (env : Env) (s : PortalActorState)
      → env.parse_introduction text ≡ ok remote
      → OneOf s
      → (msg : PortalActorMessage) → Allowed text msg
      → OneOf (handle env msg s).1
  handle-OneOf env s p (inr o) =
      λ msg a. inr (handle-OpenWith (channel_id_of self remote) env s o msg)
  handle-OneOf env s p (inl o) =
      handle-InState (opening self) env s o (λ msg. Allowed text msg → OneOf (handle env msg s).1)
        (λ t a. inr (handle-handshake env self s o t remote (ap env.parse_introduction a ∙ p)))
        (λ msg kept a. inl kept)

  pre_start-InState : (env : Env) → InState (opening self) (pre_start env self (initial self)).1
  unfolding pre_start emit
  pre_start-InState env = elim (Bool-cases env.sink_open) [
    | inl up ↦ rw up refl
    | inr down ↦ rw down refl
  ]

  Side-OneOf : {s : PortalActorState} → Side self remote text s → OneOf s
  Side-OneOf (started env s e) =
      inl (subst (InState (opening self)) (state_after e) (pre_start-InState env))
  Side-OneOf (handled env msg s s' run p a e) =
      subst OneOf (state_after e) (handle-OneOf env s p (Side-OneOf run) msg a)

  open-id :
      {s : PortalActorState} (c : ℕ)
      → Side self remote text s
      → s.channel_state ≡ open_with c
      → c ≡ channel_id_of self remote
  open-id {s} c run o = elim (Side-OneOf run) [ inl still ↦ absurd (cc) | inr same ↦ cc ]

-- In all states that the two portals of a conduit reach from `pre_start`, each by handling
-- messages without an error in any order, of which no handshake is other than the introduction
-- that the other side sent, which is read as such and whose contributions are bytes: if both are
-- open, they are open with the same channel id.
pub sides-agree :
    (intro_a intro_b : Introduction) (text_a text_b : Bytes) (a b : PortalActorState) (c d : ℕ)
    → Side intro_a intro_b text_b a
    → Side intro_b intro_a text_a b
    → All IsByte intro_a.channel_id_contribution
    → All IsByte intro_b.channel_id_contribution
    → a.channel_state ≡ open_with c
    → b.channel_state ≡ open_with d
    → c ≡ d
sides-agree intro_a intro_b text_a text_b a b c d run_a run_b ha hb oa ob =
    open-id intro_a intro_b text_b c run_a oa
    ∙ same
    ∙ sym (open-id intro_b intro_a text_a d run_b ob)
  where
    same : channel_id_of intro_a intro_b ≡ channel_id_of intro_b intro_a
    same = unfold channel_id_of in ap from_le_bytes (xor_arrays_comm _ _ ha hb)
