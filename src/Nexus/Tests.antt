-- ===== src/Nexus/Tests.antt =====
-- The nexus at concrete messages.
use ractor_wormhole.Prelude.{ℕ, ◌≡◌, ◌≢◌, ap, true, some, none, [], ◌∷◌, arith}
use ractor_wormhole.Prelude.Map.{get, nat_eq, bytes_eq}
use ractor_wormhole.Outcome.{ok, Bytes}
use ractor_wormhole.Portal.Types.{Published}
use ractor_wormhole.Nexus.{NexusActorState, Env, handle, publish_named_actor}
use ractor_wormhole.Nexus.Registry.{publish_named-get}

abbrev sample_env : Env
sample_env = record { spawn = λ identifier. ok 30; callback_open = true; port_open = λ port. true }

abbrev first : Published
first = record { cell = 40; receiver = 1 }

abbrev second : Published
second = record { cell = 41; receiver = 2 }

abbrev sample : NexusActorState
sample = record {
  on_client_connected = none;
  portals = (30, 1 ∷ []) ∷ (31, 2 ∷ []) ∷ [];
  named_actors = (8 ∷ [], first) ∷ (9 ∷ [], first) ∷ [];
  effects = [];
}

abbrev changed : NexusActorState
changed = (handle sample_env (publish_named_actor (8 ∷ []) second) sample).1

abbrev name_8 : Bytes
name_8 = 8 ∷ []

abbrev name_9 : Bytes
name_9 = 9 ∷ []

abbrev head : Bytes → ℕ
head [] = 0
head (b ∷ bs) = b

names_differ : name_8 ≢ name_9
names_differ h = absurd (omega (arith, ap head h))

publish_named-get_example :
    ((found : Published) × (get (8 ∷ []) changed.named_actors ≡ some found) × (found.cell ≡ 41))
    × (get (9 ∷ []) changed.named_actors ≡ some first)
    × (changed.portals ≡ sample.portals)
    × (changed.effects ≡ [])
unfolding get
publish_named-get_example =
    publish_named-get sample_env sample (8 ∷ []) (9 ∷ []) second names_differ
