-- ===== src/Outcome/Keeps.antt =====
-- An action keeps a predicate of its state, whether it returns or fails.
use ractor_wormhole.Prelude.{◌≡◌, Bool, true, false, if◌then◌else◌}
use ractor_wormhole.Outcome.{Outcome, ok, err, panic, stuck}
use ractor_wormhole.Outcome.Action.{Action, lift, pure, continue, ◌>>=◌}

module _ {S : Type 0} (P : S → Type 0) where
  pub record Keeps {A : Type 0} (m : Action S A) : Type 0 where
    pub at : (s : S) → P s → P (m s).1

module _ {S : Type 0} {P : S → Type 0} where
  pub Keeps-lift : {A : Type 0} (r : Outcome A) → Keeps P (lift r)
  Keeps-lift r = record { at = λ s h. h }

  pub Keeps-pure : {A : Type 0} (a : A) → Keeps P (pure a)
  Keeps-pure a = record { at = λ s h. h }

  Keeps-continue :
      {A B : Type 0} (f : A → Action S B)
      → ((a : A) → Keeps P (f a))
      → (r : Outcome A) (s : S) → P s
      → P (continue f r s).1
  Keeps-continue f k (ok a) s h = (k a).at s h
  Keeps-continue f k (err e) s h = h
  Keeps-continue f k panic s h = h
  Keeps-continue f k stuck s h = h

  pub Keeps-bind :
      {A B : Type 0} {m : Action S A} {f : A → Action S B}
      → Keeps P m
      → ((a : A) → Keeps P (f a))
      → Keeps P (m >>= f)
  unfolding ◌>>=◌
  Keeps-bind {m = m} {f = f} k l = record {
    at = λ s h. Keeps-continue f l (m s).0 (m s).1 (k.at s h);
  }

  pub Keeps-lift-bind :
      {A B : Type 0} (r : Outcome A) {f : A → Action S B}
      → ((a : A) → Keeps P (f a))
      → Keeps P (lift r >>= f)
  Keeps-lift-bind r l = Keeps-bind (Keeps-lift r) l

  pub Keeps-if :
      {A : Type 0} (b : Bool) {m k : Action S A}
      → Keeps P m
      → Keeps P k
      → Keeps P (if b then m else k)
  Keeps-if true h l = h
  Keeps-if false h l = l

module _ {S : Type 0} (P : S → Type 0) where
  pub Keeps-after :
      {A B : Type 0} (m : Action S A) {f : A → Action S B} (s : S)
      → P (m s).1
      → ((a : A) → Keeps P (f a))
      → P ((m >>= f) s).1
  unfolding ◌>>=◌
  Keeps-after m {f = f} s h l = Keeps-continue f l (m s).0 (m s).1 h

  -- Where the first step is known to return, the rest is followed from there.
  pub Keeps-returns :
      {A B : Type 0} (m : Action S A) (f : A → Action S B) (s : S) (a : A)
      → (m s).0 ≡ ok a
      → P (f a (m s).1).1
      → P ((m >>= f) s).1
  unfolding ◌>>=◌
  Keeps-returns m f s a e h = rw e h
