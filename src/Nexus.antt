-- ===== src/Nexus.antt =====
-- ractor_wormhole/src/nexus.rs: the actor that owns the portals and the shared names.
pub mod Registry
mod Tests
use ractor_wormhole.Prelude.{
  ℕ, suc, ◌≡◌, Bool, true, false, not, Option, some, none, List, [], ◌∷◌, ◌++◌, map, ◌==◌,
  if◌then◌else◌,
}
use ractor_wormhole.Prelude.Map.{get, insert, remove, nat_eq, bytes_eq}
use ractor_wormhole.Outcome.{Outcome, ok, err, Error, send_failed, Bytes}
use ractor_wormhole.Outcome.Action.{Action, pure, lift, ◌>>=◌, ◌>>◌}
use ractor_wormhole.Portal.Types.{Published}

-- What `Connected` stores of a portal: its identifier. Its actor is the key.
pub data NexusActorMessage : Type 0 where
  connected : (identifier : Bytes) (reply : ℕ) → NexusActorMessage
  get_all_portals : (reply : ℕ) → NexusActorMessage
  publish_named_actor : (name : Bytes) (actor : Published) → NexusActorMessage
  query_named_actor : (name : Bytes) (reply : ℕ) → NexusActorMessage

pub data SupervisionEvent : Type 0 where
  actor_terminated actor_failed : (actor : ℕ) → SupervisionEvent
  other_event : SupervisionEvent

pub data Effect : Type 0 where
  spawn_portal : (identifier : Bytes) → Effect
  call_back : (identifier : Bytes) (portal : ℕ) → Effect
  reply_portal : (reply portal : ℕ) → Effect
  reply_portals : (reply : ℕ) (portals : List ℕ) → Effect
  reply_actor : (reply : ℕ) (actor : Option Published) → Effect

pub record NexusActorState : Type 0 where
  pub on_client_connected : Option ℕ
  pub portals : List (ℕ × Bytes)
  pub named_actors : List (Bytes × Published)
  pub effects : List Effect

-- What one message meets: the portal actor that `Actor::spawn_linked` starts, and the receivers.
pub record Env : Type 0 where
  pub spawn : Bytes → Outcome ℕ
  pub callback_open : Bool
  pub port_open : ℕ → Bool

abbrev pub Nexus : Type 0 → Type 0
Nexus A = Action NexusActorState A

abbrev pub initial : Option ℕ → NexusActorState
initial callback = record {
  on_client_connected = callback;
  portals = [];
  named_actors = [];
  effects = [];
}

unfoldable pub emit : Effect → Nexus (Unit {0})
emit e s = (ok tt, record s { effects = s.effects ++ e ∷ [] })

unfoldable pub send_to : Env → ℕ → Effect → Nexus (Unit {0})
unfolding ◌>>=◌ emit
send_to env port e = do emit e; lift (if env.port_open port then ok tt else err send_failed)

unfoldable pub call_back_to : Env → Bytes → ℕ → Option ℕ → Nexus (Unit {0})
unfolding ◌>>=◌ emit
call_back_to env identifier portal none = pure tt
call_back_to env identifier portal (some callback) = do
  emit (call_back identifier portal)
  lift (if env.callback_open then ok tt else err send_failed)

unfoldable pub on_connected : Env → Bytes → ℕ → Nexus (Unit {0})
unfolding ◌>>=◌ emit send_to call_back_to
on_connected env identifier reply s =
    (do
      portal ← lift (env.spawn identifier)
      emit (spawn_portal identifier)
      (λ s. (ok tt, record s { portals = insert portal identifier s.portals }))
      call_back_to env identifier portal s.on_client_connected
      send_to env reply (reply_portal reply portal))
      s

-- A name that is published again for the same actor is left as it is, with its rematerializer.
unfoldable pub on_publish_named : Bytes → Published → Nexus (Unit {0})
on_publish_named name actor s = elim (get name s.named_actors) [
  | some existing ↦
      if existing.cell == actor.cell
      then (ok tt, s)
      else (ok tt, record s { named_actors = insert name actor s.named_actors })
  | none ↦ (ok tt, record s { named_actors = insert name actor s.named_actors })
]

unfoldable pub handle : Env → NexusActorMessage → Nexus (Unit {0})
unfolding on_connected send_to on_publish_named
handle env (connected identifier reply) s = on_connected env identifier reply s
handle env (get_all_portals reply) s =
    send_to env reply (reply_portals reply (map (λ e. e.0) s.portals)) s
handle env (publish_named_actor name actor) s = on_publish_named name actor s
handle env (query_named_actor name reply) s =
    send_to env reply (reply_actor reply (get name s.named_actors)) s

unfoldable pub handle_supervisor_evt : SupervisionEvent → NexusActorState → NexusActorState
handle_supervisor_evt (actor_terminated actor) s = record s { portals = remove actor s.portals }
handle_supervisor_evt (actor_failed actor) s = record s { portals = remove actor s.portals }
handle_supervisor_evt other_event s = s
