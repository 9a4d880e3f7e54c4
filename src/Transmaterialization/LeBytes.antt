-- ===== src/Transmaterialization/LeBytes.antt =====
-- `to_le_bytes` and `from_le_bytes` of the standard library, at every width.
use ractor_wormhole.Prelude.{
  ℕ, zero, suc, ◌+◌, ◌*◌, ◌/◌, ◌%◌, ◌^◌, ◌<◌, ◌≡◌, refl, [], ◌∷◌, arith, length, All, ap,
}
use native.Mathlib.Nat.{pow-suc}
use ractor_wormhole.Outcome.{Bytes}

abbrev pub IsByte : ℕ → Type 0
IsByte b = b < 256

-- `to_le_bytes size x` is the lowest `size` bytes of `x`, the lowest first.
unfoldable pub to_le_bytes : ℕ → ℕ → Bytes
to_le_bytes zero x = []
to_le_bytes (suc size) x = (x % 256) ∷ to_le_bytes size (x / 256)

unfoldable pub from_le_bytes : Bytes → ℕ
from_le_bytes [] = 0
from_le_bytes (b ∷ bs) = b + 256 * from_le_bytes bs

pub length-to_le_bytes : (size x : ℕ) → length (to_le_bytes size x) ≡ size
unfolding to_le_bytes
length-to_le_bytes zero x = refl
length-to_le_bytes (suc size) x = ap suc (length-to_le_bytes size (x / 256))

pub to_le_bytes-IsByte : (size x : ℕ) → All IsByte (to_le_bytes size x)
unfolding to_le_bytes
to_le_bytes-IsByte zero x = tt
to_le_bytes-IsByte (suc size) x = (omega arith, to_le_bytes-IsByte size (x / 256))

-- A number that fits `size` bytes comes back.
pub from_le_bytes-to_le_bytes :
    (size x : ℕ) → x < 256 ^ size → from_le_bytes (to_le_bytes size x) ≡ x
unfolding to_le_bytes from_le_bytes
from_le_bytes-to_le_bytes zero x h = omega arith
from_le_bytes-to_le_bytes (suc size) x h = omega (
  arith,
  pow-suc 256 size,
  from_le_bytes-to_le_bytes size (x / 256) (omega (arith, pow-suc 256 size)),
)

-- Bytes come back from the number that they spell.
pub to_le_bytes-from_le_bytes :
    (bs : Bytes) → All IsByte bs → to_le_bytes (length bs) (from_le_bytes bs) ≡ bs
unfolding to_le_bytes from_le_bytes
to_le_bytes-from_le_bytes [] h = refl
to_le_bytes-from_le_bytes (b ∷ bs) h = ground (arith, to_le_bytes-from_le_bytes bs h.1)

pub from_le_bytes-lt : (bs : Bytes) → All IsByte bs → from_le_bytes bs < 256 ^ length bs
unfolding from_le_bytes
from_le_bytes-lt [] h = omega arith
from_le_bytes-lt (b ∷ bs) h = omega (arith, pow-suc 256 (length bs), from_le_bytes-lt bs h.1)
