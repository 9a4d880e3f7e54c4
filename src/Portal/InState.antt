-- ===== src/Portal/InState.antt =====
-- The messages of portal.rs that leave the state of the conduit alone: all but the handshake.
use ractor_wormhole.Prelude.{ℕ, ◌≡◌, inl, inr, Option-cases}
use ractor_wormhole.Prelude.Map.{get, nat_eq, bytes_eq}
use ractor_wormhole.Outcome.{Bytes}
use ractor_wormhole.Portal.Types.{
  Answer, PortalActorState, PortalActorMessage, handshake, PortalConduitState, opening, open_with,
}
use ractor_wormhole.Portal.Env.{Env}
use ractor_wormhole.Portal.Cases.{message-cases}
use ractor_wormhole.Portal.Framed.{IsFrame, handle-Keeps, send_frame-Keeps}
use ractor_wormhole.Portal.Handle.{handle, on_response, on_query, send_to, emit}

-- The conduit's state is this one.
abbrev pub InState : PortalConduitState → PortalActorState → Type 0
InState k s = s.channel_state ≡ k

module _ (k : PortalConduitState) where
  InState-IsFrame : IsFrame (InState k)
  InState-IsFrame = record {
    emits = λ s e other o. o;
    publishes = λ s m o. o;
    names = λ s m o. o;
    proxies = λ s m o. o;
    waits = λ s m o. o;
  }

  module _ (env : Env) (s : PortalActorState) (o : InState k s) where
    on_response-InState : (id : ℕ) (answer : Answer) → InState k (on_response env id answer s).1
    unfolding on_response send_to emit
    on_response-InState id answer = elim (Option-cases (get id s.open_requests)) [
      | inl unknown ↦ rw (unknown, on_response) o
      | inr (port, known) ↦ rw (known, on_response) o
    ]

    on_query-InState :
        (name : Bytes) (port : ℕ) (c : PortalConduitState)
        → InState k (on_query env name port c s).1
    unfolding on_query
    on_query-InState name port (opening i) = o
    on_query-InState name port (open_with c) = (send_frame-Keeps InState-IsFrame env _).at _ o

    -- A message is a handshake, or its handler leaves the state of the conduit alone.
    pub handle-InState :
        (Q : PortalActorMessage → Type 0)
        → ((text : Bytes) → Q (handshake text))
        → ((msg : PortalActorMessage) → InState k (handle env msg s).1 → Q msg)
        → (msg : PortalActorMessage) → Q msg
    unfolding handle
    handle-InState Q shake other =
        message-cases Q shake (λ name port. other _ (on_query-InState name port s.channel_state))
          (λ msg c. other msg (handle-Keeps InState-IsFrame env s o msg c on_response-InState))
