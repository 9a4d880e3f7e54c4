-- ===== src/Portal/Registry.antt =====
-- The registry of published actors: `publish_actor` and the search that it makes.
use ractor_wormhole.Prelude.{
  ℕ, ◌≡◌, refl, inl, inr, none, some, List, [], ◌∷◌, ◌++◌, ◌==◌, arith, Bool-cases, if◌then◌else◌,
}
use ractor_wormhole.Prelude.Map.{get, insert, nat_eq}
use ractor_wormhole.Outcome.{ok}
use ractor_wormhole.Portal.Types.{Published, PortalActorState, watch}
use ractor_wormhole.Portal.Env.{Env}
use ractor_wormhole.Portal.Handle.{find_published, publish}

-- No two entries hold the same actor.
abbrev pub Distinct : List (ℕ × Published) → Type 0
Distinct [] = Unit {0}
Distinct ((id, entry) ∷ more) = (find_published entry.cell more ≡ none) × Distinct more

-- An entry under a new id is found last.
pub find_published-insert :
    (id : ℕ) (entry : Published) (a : ℕ) (m : List (ℕ × Published))
    → get id m ≡ none
    → find_published a m ≡ none
    → find_published a (insert id entry m) ≡ (if entry.cell == a then some id else none)
unfolding insert find_published get
find_published-insert id entry a [] fresh e = refl
find_published-insert id entry a ((j, w) ∷ m) fresh e =
    ground (arith, find_published-insert id entry a m)

pub insert-Distinct :
    (id : ℕ) (entry : Published) (m : List (ℕ × Published))
    → get id m ≡ none
    → find_published entry.cell m ≡ none
    → Distinct m
    → Distinct (insert id entry m)
unfolding insert find_published get
insert-Distinct id entry [] fresh new d = (refl, tt)
insert-Distinct id entry ((j, w) ∷ m) fresh new d =
    ground (arith, insert-Distinct id entry m, find_published-insert id entry w.cell m)

-- The id that is found is in the table, with the actor that was looked for.
pub find_published-get :
    (a id : ℕ) (m : List (ℕ × Published))
    → find_published a m ≡ some id
    → (entry : Published) × (get id m ≡ some entry)
unfolding find_published get
find_published-get a id [] e = ground arith
find_published-get a id ((j, w) ∷ m) e = elim (Bool-cases (j == id)) [
  | inl here ↦ (w, rw here)
  | inr later ↦ rw later (find_published-get a id m (ground arith))
]

-- What `publish_actor` does, on both branches.
pub publish-known :
    (env : Env) (actor : Published) (s : PortalActorState) {id : ℕ}
    → find_published actor.cell s.published_actors ≡ some id
    → publish env actor s ≡ (ok id, s)
unfolding publish
publish-known env actor s e = rw (e, publish)

pub publish-new :
    (env : Env) (actor : Published) (s : PortalActorState)
    → find_published actor.cell s.published_actors ≡ none
    → publish env actor s ≡ (
      ok env.fresh_uuid,
      record s {
        published_actors = insert env.fresh_uuid actor s.published_actors;
        effects = s.effects ++ watch actor.cell ∷ [];
      },
    )
unfolding publish
publish-new env actor s e = rw (e, publish)
