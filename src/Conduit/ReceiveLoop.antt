-- ===== src/Conduit/ReceiveLoop.antt =====
-- `receive_loop` of conduit/mod.rs, for a source that is a state and the function that reads its next
-- item.
pub mod Laws
use ractor_wormhole.Prelude.{ℕ, zero, suc, Bool, Option, none, some, List, [], ◌∷◌, if◌then◌else◌}
use ractor_wormhole.Outcome.{Outcome, ok, err, panic, stuck, ◌>>=◌}
use ractor_wormhole.Conduit.Message.{ConduitMessage, handshake, content, close}
use ractor_wormhole.Portal.Types.{PortalActorMessage}
use ractor_wormhole.Portal.Types

-- A source yields an item and goes on, or is at its end.
abbrev pub Source : Type 0 → Type 0
Source R = R → Option (Outcome ConduitMessage × R)

-- What the loop does with an item: it casts a message, or breaks; a source that panics ends the task.
pub data Turn (R : Type 0) : Type 0 where
  cast : PortalActorMessage → R → Turn R
  break : Turn R
  crash : Turn R
  starve : Turn R

module _ {R : Type 0} where
  unfoldable pub turn : Option (Outcome ConduitMessage × R) → Turn R
  turn none = break
  turn (some (ok (handshake text), r)) = cast (Types.handshake text) r
  turn (some (ok (content bytes), r)) = cast (Types.content bytes) r
  turn (some (ok (close reason), r)) = break
  turn (some (err e, r)) = break
  turn (some (panic, r)) = crash
  turn (some (stuck, r)) = starve

-- `alive n`: the portal still takes messages at the loop's cast number `n`.
unfoldable pub cast_close : (alive : ℕ → Bool) → ℕ → List PortalActorMessage
cast_close alive n = if alive n then Types.close ∷ [] else []

-- The messages that reach the portal.
module _ {R : Type 0} where
  unfoldable pub on_turn :
      (ℕ → Bool)
      → ℕ
      → Turn R
      → (R → Outcome (List PortalActorMessage))
      → Outcome (List PortalActorMessage)
  on_turn alive n (cast msg r) again =
      if alive n then again r >>= (λ rest. ok (msg ∷ rest)) else ok (cast_close alive (suc n))
  on_turn alive n break again = ok (cast_close alive n)
  on_turn alive n crash again = panic
  on_turn alive n starve again = stuck

  unfoldable pub receive_loop :
      Source R → (ℕ → Bool) → (fuel n : ℕ) → R → Outcome (List PortalActorMessage)
  receive_loop next alive zero n r = stuck
  receive_loop next alive (suc fuel) n r =
      on_turn alive n (turn (next r)) (λ rest. receive_loop next alive fuel (suc n) rest)
