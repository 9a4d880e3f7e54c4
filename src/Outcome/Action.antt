-- ===== src/Outcome/Action.antt =====
-- Asynchronous code that works on a shared state, one `await` after the other: the state that a
-- step leaves stays, also where a later step fails.
use ractor_wormhole.Prelude.{◌≡◌, ap}
use ractor_wormhole.Outcome.{Outcome, ok, err, panic, stuck}

abbrev pub Action : Type 0 → Type 0 → Type 0
Action S A = S → Outcome A × S

module _ {S A : Type 0} where
  abbrev pub pure : A → Action S A
  pure a s = (ok a, s)

  abbrev pub lift : Outcome A → Action S A
  lift r s = (r, s)

module _ {S A B : Type 0} where
  abbrev pub continue : (A → Action S B) → Outcome A → Action S B
  continue f (ok a) s = f a s
  continue f (err e) s = (err e, s)
  continue f panic s = (panic, s)
  continue f stuck s = (stuck, s)

  infixl 5 ◌>>=◌ ◌>>◌
  unfoldable pub ◌>>=◌ : Action S A → (A → Action S B) → Action S B
  ◌>>=◌ m f s = let (r, s') = m s in continue f r s'

  abbrev pub ◌>>◌ : Action S A → Action S B → Action S B
  m >> k = m >>= λ _. k

  -- What a step returns decides what its continuation does.
  pub bind-eq :
      (m : Action S A) (f : A → Action S B) {s s' : S} {r : Outcome A}
      → m s ≡ (r, s')
      → (m >>= f) s ≡ continue f r s'
  unfolding ◌>>=◌
  bind-eq m f e = ap (λ (p : Outcome A × S). continue f p.0 p.1) e

  pub bind-lift :
      (m : Outcome A) (f : A → Action S B) (s : S) {a : A} → m ≡ ok a → (lift m >>= f) s ≡ f a s
  bind-lift m f s e = bind-eq (lift m) f (ap (λ (r : Outcome A). (r, s)) e)
