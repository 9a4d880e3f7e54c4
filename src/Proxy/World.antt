-- ===== src/Proxy/World.antt =====
-- What a message's codec works on through its context: the portal with its mailbox, and the actors and
-- ports that it makes. A duration is a number of nanoseconds. What a message does to the actor that it is
-- delivered to is in Call.
use ractor_wormhole.Prelude.{
  ℕ, suc, Bool, true, false, ◌&&◌, not, drop, Option, none, some, List, [], ◌∷◌, ◌++◌, length, ◌==◌,
  if◌then◌else◌,
}
use ractor_wormhole.Prelude.Map.{insert, remove, nat_eq}
use ractor_wormhole.Outcome.{Outcome, ok, err, ask_failed, send_failed, spawn_failed}
use ractor_wormhole.Outcome.Action.{Action, pure, ◌>>=◌}
use ractor_wormhole.Portal.Types.{
  RemoteActorId, Published, PortalActorMessage, publish_actor, register_proxy_for_remote_actor,
  Effect, reply_published, stop_proxy, stop_portal, PortalActorState,
}
use ractor_wormhole.Portal.Env.{Env}
use ractor_wormhole.Portal.Handle.{handle}

-- What a local actor does that the context started.
pub data Job : Type 0 where
  -- `instantiate_proxy_for_remote_actor`: send on what comes
  forward_to : RemoteActorId → Job
  -- `RpcProxyActor`: answer the port, and stop
  answer : (port : ℕ) → Job

pub record World : Type 0 where
  pub portal : PortalActorState
  -- whether the portal takes messages: an error, or a stop, ends it
  pub alive : Bool
  pub mailbox : List PortalActorMessage
  -- the number of messages that the portal has handled
  pub turn : ℕ
  -- the actors that run
  pub actors : List (ℕ × Job)
  -- whether the runtime starts the actor of this number
  pub spawns : ℕ → Bool
  pub next_cell : ℕ
  pub next_port : ℕ
  -- the ports whose value a task sends to an actor, and the actors that are killed after a while
  pub forwards : List (ℕ × ℕ)
  pub timers : List (ℕ × ℕ)

-- `actor_cell.stop(…)`, for each proxy that the portal stops.
unfoldable pub stop_all : List Effect → List (ℕ × Job) → List (ℕ × Job)
stop_all [] actors = actors
stop_all (stop_proxy cell ∷ es) actors = stop_all es (remove cell actors)
stop_all (_ ∷ es) actors = stop_all es actors

unfoldable pub stops_portal : List Effect → Bool
stops_portal [] = false
stops_portal (stop_portal ∷ es) = true
stops_portal (_ ∷ es) = stops_portal es

abbrev pub is_ok : {A : Type 0} → Outcome A → Bool
is_ok (ok a) = true
is_ok _ = false

-- What the portal's handler did, and what follows from its new effects. The runtime also stops the actors
-- that are linked to a portal which has ended; they are left in the list.
abbrev pub settled : World → Outcome (Unit {0}) × PortalActorState → List Effect → World
settled w (r, s) es = record w {
  portal = s;
  alive = is_ok r && not (stops_portal es);
  turn = suc w.turn;
  actors = stop_all es w.actors;
}

-- The portal handles one message.
unfoldable pub turn_on : Env → PortalActorMessage → World → World
unfolding stop_all stops_portal
turn_on env msg w =
    let (r, s) = handle env msg w.portal in
    settled w (r, s) (drop (length w.portal.effects) s.effects)

-- It handles its messages in their order; where it stops, the rest is dropped.
unfoldable pub run_portal : (ℕ → Env) → List PortalActorMessage → World → World
unfolding turn_on
run_portal env [] w = w
run_portal env (msg ∷ more) w =
    let rest = run_portal env more (turn_on (env w.turn) msg w) in if w.alive then rest else w

unfoldable pub reply_to : ℕ → List Effect → Option RemoteActorId
reply_to port [] = none
reply_to port (reply_published q id ∷ es) = if q == port then some id else reply_to port es
reply_to port (_ ∷ es) = reply_to port es

-- The answer that the port gets: none if the portal fails, or drops the port.
abbrev pub awaited : Option RemoteActorId → Outcome RemoteActorId
awaited (some id) = ok id
awaited none = err ask_failed

abbrev pub answered : ℕ → World → Outcome RemoteActorId
answered port w = if w.alive then awaited (reply_to port w.portal.effects) else err ask_failed

abbrev pub asking : World → World
asking w = record w { mailbox = []; next_port = suc w.next_port }

-- `connection.ask(|rpc| PublishActor(cell, receiver, Some(rpc)), None).await?`. What is in the mailbox
-- is handled before.
unfoldable pub ask_publish : (ℕ → Env) → Published → Action World RemoteActorId
unfolding run_portal reply_to
ask_publish env actor w =
    let v = run_portal env (w.mailbox ++ publish_actor actor (some w.next_port) ∷ []) (asking w) in
    if w.alive then (answered w.next_port v, v) else (err send_failed, w)

-- `self.send_message(…)?`
unfoldable pub send_message_to_portal : PortalActorMessage → Action World (Unit {0})
send_message_to_portal msg w =
    if w.alive then (ok tt, record w { mailbox = w.mailbox ++ msg ∷ [] }) else (err send_failed, w)

-- `start_fn_linked(…).await?`, `spawn_linked(…).await?`
unfoldable pub spawn_linked : Job → Action World ℕ
spawn_linked job w =
    if w.spawns w.next_cell
    then (
      ok w.next_cell,
      record w { actors = insert w.next_cell job w.actors; next_cell = suc w.next_cell },
    )
    else (err spawn_failed, w)

-- The steps after the proxy is started.
abbrev pub register_proxy : RemoteActorId → (cell : ℕ) → Action World ℕ
register_proxy id cell =
    send_message_to_portal (register_proxy_for_remote_actor id cell) >>= (λ _. pure cell)

-- `instantiate_proxy_for_remote_actor`: an actor that forwards, and a message that registers it.
unfoldable pub instantiate_proxy_for_remote_actor : RemoteActorId → Action World ℕ
unfolding spawn_linked send_message_to_portal ◌>>=◌
instantiate_proxy_for_remote_actor id = spawn_linked (forward_to id) >>= register_proxy id

-- `kill_after`, when its time has come.
unfoldable pub timer_fires : (cell : ℕ) → World → World
timer_fires cell w = record w { actors = remove cell w.actors }
