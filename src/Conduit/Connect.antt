-- ===== src/Conduit/Connect.antt =====
-- `from_sink_source` of conduit/mod.rs, and the server of conduit/unix_socket/server.rs that calls it for
-- each connection.
pub mod Loops
pub mod Started
use ractor_wormhole.Prelude.{
  ℕ, suc, Bool, false, Option, none, some, List, [], ◌∷◌, ◌++◌, ◌==◌, if◌then◌else◌,
}
use ractor_wormhole.Outcome.{Outcome, ok, err, send_failed, ask_failed, Bytes}
use ractor_wormhole.Outcome.Action.{Action, pure, ◌>>=◌, ◌>>◌}
use ractor_wormhole.Nexus.{NexusActorState, Env, Effect, reply_portal, connected, handle}

-- The nexus, which its first error stops, and the receive loops that were started: each one's portal and
-- what its source is at first.
pub record Host (R : Type 0) : Type 0 where
  pub nexus : NexusActorState
  pub alive : Bool
  pub next_port : ℕ
  pub loops : List (ℕ × R)

unfoldable pub portal_for : ℕ → List Effect → Option ℕ
portal_for port [] = none
portal_for port (reply_portal q portal ∷ es) = if q == port then some portal else portal_for port es
portal_for port (_ ∷ es) = portal_for port es

-- A port that is dropped is an error of the `ask`.
abbrev pub awaited : Option ℕ → Outcome ℕ
awaited (some portal) = ok portal
awaited none = err ask_failed

module _ {R : Type 0} where
  -- What the question leads to when the nexus has handled it.
  abbrev pub settle : Host R → Outcome (Unit {0}) × NexusActorState → Outcome ℕ × Host R
  settle h (ok t, s) = (
    awaited (portal_for h.next_port s.effects),
    record h { nexus = s; next_port = suc h.next_port },
  )
  settle h (r, s) =
      (err ask_failed, record h { nexus = s; next_port = suc h.next_port; alive = false })

  -- `nexus.ask(|rpc| NexusActorMessage::Connected(portal_identifier, sink, rpc), None).await`
  unfoldable pub ask_connected : Env → Bytes → Action (Host R) ℕ
  ask_connected env identifier h =
      if h.alive
      then settle h (handle env (connected identifier h.next_port) h.nexus)
      else (err send_failed, h)

  -- `spawn(async move { receive_loop(source, …, portal).await })`
  unfoldable pub spawn_loop : ℕ → R → Action (Host R) (Unit {0})
  spawn_loop portal source h = (ok tt, record h { loops = h.loops ++ (portal, source) ∷ [] })

  unfoldable pub from_sink_source : Env → Bytes → R → Action (Host R) ℕ
  unfolding ◌>>=◌ ask_connected spawn_loop
  from_sink_source env identifier source = do
    portal ← ask_connected env identifier
    spawn_loop portal source
    pure portal

  -- The server's identifier for its connection of this number. An error is only logged.
  unfoldable pub handle_connection :
      (identify : ℕ → Bytes) → Env → (connection_id : ℕ) → R → Host R → Host R
  unfolding from_sink_source
  handle_connection identify env connection_id source h =
      (from_sink_source env (identify connection_id) source h).1

  -- The connections that the listener accepts, each with what the nexus meets then.
  unfoldable pub serve :
      (identify : ℕ → Bytes) → (connection_counter : ℕ) → List (Env × R) → Host R → Host R
  unfolding handle_connection
  serve identify counter [] h = h
  serve identify counter ((env, source) ∷ more) h =
      serve identify (suc counter) more (handle_connection identify env (suc counter) source h)
