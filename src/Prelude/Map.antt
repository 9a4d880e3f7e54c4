-- ===== src/Prelude/Map.antt =====
-- A `HashMap` as an association list: a key is found at its first entry, and `insert` overwrites it
-- there. The iteration order of the table is that of the list, which no theorem relies on.
use ractor_wormhole.Prelude.Tests.{
  ◌==◌ as nat_beq, ==_iff as nat_beq_iff, if◌then◌else◌, Bool-cases,
}
use Prim.Native.Nat.{ℕ}
use mathlib.Core.Path.{◌≡◌, refl}
use mathlib.Core.Logic.{◌↔◌, ◌≢◌, inl, inr}
use mathlib.Core.Bool.{Bool, true, false, ◌&&◌}
use mathlib.Core.Option.{Option, none, some}
use mathlib.Core.List.{List, [], ◌∷◌}
use native.Mathlib.Omega.{arith}

pub record Eq (K : Type 0) : Type 0 where
  pub beq : K → K → Bool
  pub beq_iff : (a b : K) → (beq a b ≡ true) ↔ (a ≡ b)

instance abbrev pub nat_eq : Eq ℕ
nat_eq = record { beq = nat_beq; beq_iff = nat_beq_iff }

abbrev bytes_beq : List ℕ → List ℕ → Bool
bytes_beq [] [] = true
bytes_beq [] (y ∷ ys) = false
bytes_beq (x ∷ xs) [] = false
bytes_beq (x ∷ xs) (y ∷ ys) = nat_beq x y && bytes_beq xs ys

pub bytes_beq_iff : (xs ys : List ℕ) → (bytes_beq xs ys ≡ true) ↔ (xs ≡ ys)
bytes_beq_iff [] [] = ((λ _. refl), λ _. refl)
bytes_beq_iff [] (y ∷ ys) = ((λ h. cc), λ h. cc)
bytes_beq_iff (x ∷ xs) [] = ((λ h. cc), λ h. cc)
bytes_beq_iff (x ∷ xs) (y ∷ ys) =
    ((λ h. ground (arith, bytes_beq_iff xs ys)), λ h. ground (arith, bytes_beq_iff xs ys))

instance abbrev pub bytes_eq : Eq (List ℕ)
bytes_eq = record { beq = bytes_beq; beq_iff = bytes_beq_iff }

module _ {K : Type 0} ⦃e : Eq K⦄ where
  infix 50 ◌=?◌
  abbrev pub ◌=?◌ : K → K → Bool
  ◌=?◌ = e.beq

  pub beq_refl : (k : K) → (k =? k) ≡ true
  beq_refl k = (e.beq_iff k k).1 refl

  pub beq_ne : (k j : K) → k ≢ j → (k =? j) ≡ false
  beq_ne k j h = elim (Bool-cases (k =? j)) [
    | inl same ↦ absurd (h ((e.beq_iff k j).0 same))
    | inr other ↦ other
  ]

  module _ {V : Type 0} where
    unfoldable pub get : K → List (K × V) → Option V
    get k [] = none
    get k ((j, v) ∷ m) = if j =? k then some v else get k m

    unfoldable pub insert : K → V → List (K × V) → List (K × V)
    insert k v [] = (k, v) ∷ []
    insert k v ((j, w) ∷ m) = if j =? k then (k, v) ∷ m else (j, w) ∷ insert k v m

    unfoldable pub remove : K → List (K × V) → List (K × V)
    remove k [] = []
    remove k ((j, v) ∷ m) = if j =? k then remove k m else (j, v) ∷ remove k m

    pub get-insert :
        (k j : K) (v : V) (m : List (K × V))
        → get j (insert k v m) ≡ (if k =? j then some v else get j m)
    unfolding get insert
    get-insert k j v [] = refl
    get-insert k j v ((i, w) ∷ m) =
        ground (arith, e.beq_iff k j, e.beq_iff i k, e.beq_iff i j, get-insert k j v m)

    pub get-remove :
        (k j : K) (m : List (K × V)) → get j (remove k m) ≡ (if k =? j then none else get j m)
    unfolding get remove
    get-remove k j [] = ground arith
    get-remove k j ((i, w) ∷ m) =
        ground (arith, e.beq_iff k j, e.beq_iff i k, e.beq_iff i j, get-remove k j m)
