-- ===== src/Nexus/Registry.antt =====
-- What the nexus remembers: names, and the portals that live.
use ractor_wormhole.Prelude.{
  ◌≡◌, refl, ap, ◌∙◌, ◌⊎◌, inl, inr, some, ◌==◌, if◌then◌else◌, Option-cases, Bool-cases, ==_iff,
  ◌≢◌,
}
use ractor_wormhole.Prelude.Map.{get, insert, beq_refl, beq_ne, nat_eq, bytes_eq, get-insert}
use ractor_wormhole.Outcome.{ok, Bytes}
use ractor_wormhole.Portal.Types.{Published}
use ractor_wormhole.Nexus.{NexusActorState, Env, handle, on_publish_named, publish_named_actor}

-- A name is either left with the actor that it has, or written anew.
published :
    (name : Bytes) (actor : Published) (s : NexusActorState)
    → ((on_publish_named name actor s ≡ (ok tt, s))
        × ((found : Published) × (get name s.named_actors ≡ some found)
            × (found.cell ≡ actor.cell)))
      ⊎ (on_publish_named name actor s
          ≡ (ok tt, record s { named_actors = insert name actor s.named_actors }))
unfolding on_publish_named
published name actor s = elim (Option-cases (get name s.named_actors)) [
  | inl none_yet ↦ inr (rw (none_yet, on_publish_named))
  | inr (existing, e) ↦ elim (Bool-cases (existing.cell == actor.cell)) [
    | inl same ↦ inl (rw (e, on_publish_named) (rw same), (existing, e, (==_iff _ _).0 same))
    | inr other ↦ inr (rw (e, on_publish_named) (rw other))
  ]
]

-- After the nexus publishes an actor under a name, the name leads to that actor, a different name
-- leads to what it led to before, and the portals and the effects are unchanged.
pub publish_named-get :
    (env : Env) (s : NexusActorState) (name other : Bytes) (actor : Published)
    → name ≢ other
    → let s' = (handle env (publish_named_actor name actor) s).1 in
      ((found : Published) × (get name s'.named_actors ≡ some found) × (found.cell ≡ actor.cell))
      × (get other s'.named_actors ≡ get other s.named_actors)
      × (s'.portals ≡ s.portals)
      × (s'.effects ≡ s.effects)
unfolding handle
publish_named-get env s name other actor differ = elim (published name actor s) [
  | inl (e, found) ↦ rw e (found, refl, refl, refl)
  | inr e ↦ rw e (
    (
      actor,
      get-insert name name actor s.named_actors
          ∙ ap (λ t. if t then some actor else get name s.named_actors) (beq_refl name),
      refl,
    ),
    get-insert name other actor s.named_actors
        ∙ ap (λ t. if t then some actor else get other s.named_actors) (beq_ne name other differ),
    refl,
    refl,
  )
]
