-- ===== src/Combinators.antt =====
-- util/combinators: the actors that `map`, `filter_map` and `filter` put before another actor. `alive n`
-- says whether that actor still takes messages at their send number `n`.
pub mod Laws
mod Tests
use ractor_wormhole.Prelude.{ℕ, suc, Bool, Option, none, some, List, [], ◌∷◌, ◌++◌, if◌then◌else◌}
use ractor_wormhole.Outcome.{ok, err, send_failed}
use ractor_wormhole.Outcome.Action.{Action, pure, ◌>>=◌, ◌>>◌}

-- The actor behind: what it got, and how often a send was tried.
pub record Target (M : Type 0) : Type 0 where
  pub inbox : List M
  pub sends : ℕ

pub data FilterResult (M : Type 0) : Type 0 where
  forward : M → FilterResult M
  drop : FilterResult M

module _ {M : Type 0} where
  -- One more send, that arrives or does not.
  abbrev pub sent : Target M → List M → Target M
  sent t ms = record { inbox = t.inbox ++ ms; sends = suc t.sends }

module _ (alive : ℕ → Bool) {M : Type 0} where
  unfoldable pub send : M → Action (Target M) (Unit {0})
  send m t = if alive t.sends then (ok tt, sent t (m ∷ [])) else (err send_failed, sent t [])

  -- `if let Some(mapped_message)`
  abbrev pub send_some : Option M → Action (Target M) (Unit {0})
  send_some none = pure tt
  send_some (some m) = send m

  -- What `filter` does with the verdict: a failed send is logged.
  abbrev pub send_forward : FilterResult M → Action (Target M) (Unit {0})
  send_forward (forward m) t = (ok tt, (send m t).1)
  send_forward drop t = (ok tt, t)

  module _ {N : Type 0} where
    -- `MappedActor::handle`
    unfoldable pub map_handle : (to : N → M) → N → Action (Target M) (Unit {0})
    unfolding send
    map_handle to message = send (to message)

    -- `FilterMapActor::handle`
    unfoldable pub filter_map_handle : (N → Option M) → N → Action (Target M) (Unit {0})
    unfolding send
    filter_map_handle filter_map message = send_some (filter_map message)

  -- The loop's body in `filter`.
  unfoldable pub filter_handle : (M → FilterResult M) → M → Action (Target M) (Unit {0})
  unfolding send
  filter_handle f msg = send_forward (f msg)

-- An actor handles its messages in their order; an error stops it.
unfoldable pub handle_all :
    {S N : Type 0} → (N → Action S (Unit {0})) → List N → Action S (Unit {0})
unfolding ◌>>=◌
handle_all handle [] = pure tt
handle_all handle (m ∷ ms) = do handle m; handle_all handle ms
