-- ===== src/Transmaterialization/Capacity.antt =====
-- `Vec::with_capacity`, as the codecs of transmaterialization/default_implementations.rs call it.
use ractor_wormhole.Prelude.{ℕ, ◌+◌, ◌*◌, ◌<◌, ◌≡◌, ltb, if◌then◌else◌, arith, lt→ltb}
use ractor_wormhole.Outcome.{Outcome, ok, panic, ◌>>=◌}
use ractor_wormhole.Platform.{
  Platform, IsSupported, isize_limit, mul_usize, add_usize, mul_usize-fits, add_usize-fits,
  isize_limit-double,
}

-- `Vec::with_capacity`: "capacity overflow" if the elements take more than `isize::MAX` bytes.
unfoldable pub with_capacity : Platform → ℕ → ℕ → Outcome (Unit {0})
with_capacity p size_of count = if ltb (count * size_of) (isize_limit p) then ok tt else panic

-- `Vec::with_capacity(8 + self.len() * 8)`, of bytes.
unfoldable pub reserve : Platform → (len : ℕ) → Outcome (Unit {0})
unfolding with_capacity
reserve p len = do
  product ← mul_usize p len 8
  capacity ← add_usize p 8 product
  with_capacity p 1 capacity

-- `Vec::with_capacity(8 + self.len())`, of bytes.
unfoldable pub reserve_sized : Platform → (len : ℕ) → Outcome (Unit {0})
unfolding with_capacity
reserve_sized p len = do capacity ← add_usize p 8 len; with_capacity p 1 capacity

pub with_capacity-lt :
    (p : Platform) (size_of count : ℕ)
    → count * size_of < isize_limit p
    → with_capacity p size_of count ≡ ok tt
unfolding with_capacity
with_capacity-lt p size_of count h = rw (lt→ltb _ _ h)

pub reserve-fits :
    (p : Platform) (len : ℕ) → IsSupported p → 8 + len * 8 < isize_limit p → reserve p len ≡ ok tt
unfolding reserve
reserve-fits p len sup h = rw (mul_usize-fits p len 8 (omega (arith, isize_limit-double p sup))) (
    rw (add_usize-fits p 8 (len * 8) (omega (arith, isize_limit-double p sup)))
      (with_capacity-lt p 1 (8 + len * 8) (omega arith)))

pub reserve_sized-fits :
    (p : Platform) (len : ℕ) → IsSupported p → 8 + len < isize_limit p → reserve_sized p len ≡ ok tt
unfolding reserve_sized
reserve_sized-fits p len sup h =
    rw (add_usize-fits p 8 len (omega (arith, isize_limit-double p sup)))
      (with_capacity-lt p 1 (8 + len) (omega arith))
