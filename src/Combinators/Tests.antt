-- ===== src/Combinators/Tests.antt =====
-- The combinators before an actor that lives, and before one that is gone.
use ractor_wormhole.Prelude.{ℕ, ◌≡◌, ◌≤◌, refl, false, [], ◌∷◌, if◌then◌else◌, ltb}
use ractor_wormhole.Outcome.{ok}
use ractor_wormhole.Combinators.{
  Target, FilterResult, forward, drop, filter_handle, filter_map_handle, handle_all,
}
use ractor_wormhole.Combinators.Laws.{kept, filter-goes_on}

-- Numbers below ten pass, one higher.
abbrev below_ten : ℕ → FilterResult ℕ
below_ten n = if ltb n 10 then forward n else drop

abbrev empty : Target ℕ
empty = record { inbox = []; sends = 0 }

filter-goes_on_example :
    ((handle_all (filter_handle (λ n. false) below_ten) (4 ∷ 12 ∷ 5 ∷ []) empty).0 ≡ ok tt)
    × ((handle_all (filter_handle (λ n. false) below_ten) (4 ∷ 12 ∷ 5 ∷ []) empty).1.sends ≡ 2)
    × ((handle_all
          (filter_map_handle (λ n. false) (λ m. kept (below_ten m)))
          (4 ∷ 12 ∷ 5 ∷ [])
          empty).1.sends
        ≤ 1)
filter-goes_on_example = filter-goes_on (λ n. false) below_ten (4 ∷ 12 ∷ 5 ∷ []) empty (λ n. refl)
