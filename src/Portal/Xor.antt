-- ===== src/Portal/Xor.antt =====
-- `xor_arrays` of portal.rs does not tell its arguments apart, so that both ends of a conduit compute
-- the same id.
use ractor_wormhole.Prelude.{
  ℕ, zero, suc, ◌<◌, ◌≡◌, refl, ap₂, Bool, true, ◌&&◌, [], ◌∷◌, ◌==◌, ==_iff, bit_xor, arith, All,
}
use ractor_wormhole.Outcome.{Bytes}
use ractor_wormhole.Transmaterialization.LeBytes.{IsByte}
use ractor_wormhole.Portal.Wire.{xor_arrays}

-- Every value of a small range, tried.
every : ℕ → (ℕ → Bool) → Bool
every zero p = true
every (suc n) p = p n && every n p

every_sound : (n : ℕ) (p : ℕ → Bool) (x : ℕ) → every n p ≡ true → x < n → p x ≡ true
unfolding every
every_sound zero p x h lt = absurd (omega arith)
every_sound (suc n) p x h lt = ground (arith, every_sound n p x)

commutes : ℕ → Bool
commutes x = every 256 (λ y. bit_xor x y == bit_xor y x)

all_commute : every 256 commutes ≡ true
unfolding every commutes
all_commute = refl

bit_xor_comm : (x y : ℕ) → IsByte x → IsByte y → bit_xor x y ≡ bit_xor y x
unfolding commutes
bit_xor_comm x y hx hy = (==_iff _ _).0 (
    every_sound 256 (λ y. bit_xor x y == bit_xor y x) y (every_sound 256 commutes x all_commute hx)
      hy)

pub xor_arrays_comm :
    (as' bs : Bytes) → All IsByte as' → All IsByte bs → xor_arrays as' bs ≡ xor_arrays bs as'
unfolding xor_arrays
xor_arrays_comm [] [] ha hb = refl
xor_arrays_comm [] (b ∷ bs) ha hb = refl
xor_arrays_comm (a ∷ as') [] ha hb = refl
xor_arrays_comm (a ∷ as') (b ∷ bs) ha hb =
    ap₂ (λ x xs. x ∷ xs) (bit_xor_comm a b ha.0 hb.0) (xor_arrays_comm as' bs ha.1 hb.1)
