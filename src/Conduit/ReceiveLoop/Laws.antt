-- ===== src/Conduit/ReceiveLoop/Laws.antt =====
-- What `receive_loop` gives the portal: each message in its order, and the end of the conduit.
use ractor_wormhole.Prelude.{ℕ, zero, suc, ◌<◌, ◌≡◌, ◌≢◌, refl, Bool, true, List, [], ◌∷◌, arith}
use ractor_wormhole.Outcome.{Outcome, ok, err, panic, stuck, ◌>>=◌}
use ractor_wormhole.Conduit.ReceiveLoop.{
  Source, Turn, cast, break, crash, starve, turn, cast_close, on_turn, receive_loop,
}
use ractor_wormhole.Portal.Types.{PortalActorMessage}
use ractor_wormhole.Portal.Types

-- The messages that the portal has got end with `Close`.
abbrev pub EndsClosed : List PortalActorMessage → Type 0
EndsClosed [] = ⊥
EndsClosed (m ∷ []) = m ≡ Types.close
EndsClosed (m ∷ n ∷ ms) = EndsClosed (n ∷ ms)

abbrev pub Closes : Outcome (List PortalActorMessage) → Type 0
Closes (ok ms) = EndsClosed ms
Closes (err e) = ⊥
Closes panic = ⊥
Closes stuck = ⊥

Closes-cons :
    (m : PortalActorMessage) (result : Outcome (List PortalActorMessage))
    → Closes result
    → Closes (result >>= (λ rest. ok (m ∷ rest)))
Closes-cons m (ok (x ∷ xs)) h = h
Closes-cons m (ok []) h = elim h [ ]
Closes-cons m (err e) h = elim h [ ]
Closes-cons m panic h = elim h [ ]
Closes-cons m stuck h = elim h [ ]

module _ {R : Type 0} (next : Source R) (alive : ℕ → Bool) (up : (n : ℕ) → alive n ≡ true) where
  Closes-cast_close : (n : ℕ) → Closes (ok (cast_close alive n))
  unfolding cast_close
  Closes-cast_close n = rw (up n) refl

  -- One turn of a loop whose portal lives.
  pub on_turn-alive :
      (n : ℕ) (m : PortalActorMessage) (r : R) (again : R → Outcome (List PortalActorMessage))
      → on_turn alive n (cast m r) again ≡ (again r >>= (λ rest. ok (m ∷ rest)))
  unfolding on_turn
  on_turn-alive n m r again = rw (up n) refl

  pub on_turn-break :
      (n : ℕ) (again : R → Outcome (List PortalActorMessage))
      → on_turn alive n break again ≡ ok (Types.close ∷ [])
  unfolding on_turn cast_close
  on_turn-break n again = rw (up n) refl

  -- A source that uses up what it reads, and does not panic, on what is `Valid`.
  pub record Shrinks (Valid : R → Type 0) (size : R → ℕ) : Type 0 where
    pub less :
        (r r' : R) (m : PortalActorMessage)
        → Valid r
        → turn (next r) ≡ cast m r'
        → Valid r' × (size r' < size r)
    pub no_crash : (r : R) → Valid r → turn (next r) ≢ crash
    pub no_starve : (r : R) → Valid r → turn (next r) ≢ starve

  module _ (Valid : R → Type 0) (size : R → ℕ) where
    Closes-on_turn :
        (n fuel : ℕ) (r : R) (again : R → Outcome (List PortalActorMessage))
        → Shrinks Valid size
        → Valid r
        → size r < suc fuel
        → ((r' : R) → Valid r' → size r' < fuel → Closes (again r'))
        → (t : Turn R) → turn (next r) ≡ t
        → Closes (on_turn alive n t again)
    unfolding on_turn
    Closes-on_turn n fuel r again h valid enough rest (cast m r') e =
        let smaller = h.less r r' m valid e in
        rw (up n) (Closes-cons m (again r') (rest r' smaller.0 (omega (arith, smaller.1))))
    Closes-on_turn n fuel r again h valid enough rest break e = Closes-cast_close n
    Closes-on_turn n fuel r again h valid enough rest crash e = absurd (h.no_crash r valid e)
    Closes-on_turn n fuel r again h valid enough rest starve e = absurd (h.no_starve r valid e)

    -- The loop over such a source comes to its end, and tells the portal.
    pub receive_loop-Closes :
        (fuel n : ℕ) (r : R)
        → Shrinks Valid size
        → Valid r
        → size r < fuel
        → Closes (receive_loop next alive fuel n r)
    unfolding receive_loop
    receive_loop-Closes zero n r h valid enough = absurd (omega arith)
    receive_loop-Closes (suc fuel) n r h valid enough =
        Closes-on_turn n fuel r (λ rest. receive_loop next alive fuel (suc n) rest) h valid enough
          (λ r' v small. receive_loop-Closes fuel (suc n) r' h v small) (turn (next r)) refl
