-- ===== src/Transmaterialization/Util.antt =====
-- ractor_wormhole/src/transmaterialization/util.rs: checked reads of a received buffer.
use ractor_wormhole.Prelude.{ℕ, ◌≤◌, ◌<◌, ◌≡◌, ◌==◌, arith, ltb, leb, if◌then◌else◌, length}
use ractor_wormhole.Prelude.Int.{ℤ, pos, negsuc}
use ractor_wormhole.Outcome.{
  Outcome, ok, err, Bytes, ensure, buffer_size_mismatch, expected_bytes, exceeds_usize,
  exceeds_isize,
}
use ractor_wormhole.Platform.{Platform, IsSupported, usize_limit, isize_limit}
use ractor_wormhole.Transmaterialization.LeBytes.{
  to_le_bytes, from_le_bytes, length-to_le_bytes, from_le_bytes-to_le_bytes,
}

unfoldable pub u64_to_usize : Platform → ℕ → Outcome ℕ
u64_to_usize p value = if ltb value (usize_limit p) then ok value else err (exceeds_usize value)

-- The range of `isize` is -2 ^ (bits - 1) .. 2 ^ (bits - 1) - 1.
unfoldable pub i64_to_isize : Platform → ℤ → Outcome ℤ
i64_to_isize p (pos n) = if ltb n (isize_limit p) then ok (pos n) else err (exceeds_isize (pos n))
i64_to_isize p (negsuc n) =
    if ltb n (isize_limit p) then ok (negsuc n) else err (exceeds_isize (negsuc n))

unfoldable pub usize_from_u64_le_bytes : Platform → Bytes → Outcome ℕ
usize_from_u64_le_bytes p bytes =
    if length bytes == 8
    then u64_to_usize p (from_le_bytes bytes)
    else err (expected_bytes 8 (length bytes))

unfoldable pub require_buffer_size : Bytes → ℕ → Outcome (Unit {0})
require_buffer_size buffer size =
    ensure (length buffer == size) (buffer_size_mismatch size (length buffer))

unfoldable pub require_min_buffer_size : Bytes → ℕ → Outcome (Unit {0})
require_min_buffer_size buffer size =
    ensure (leb size (length buffer)) (buffer_size_mismatch size (length buffer))

pub require_buffer_size-eq :
    (buffer : Bytes) (size : ℕ) → length buffer ≡ size → require_buffer_size buffer size ≡ ok tt
unfolding require_buffer_size
require_buffer_size-eq buffer size h = ground arith

pub require_min_buffer_size-le :
    (buffer : Bytes) (size : ℕ) → size ≤ length buffer → require_min_buffer_size buffer size ≡ ok tt
unfolding require_min_buffer_size
require_min_buffer_size-le buffer size h = ground arith

pub u64_to_usize-lt :
    (p : Platform) (value : ℕ) → value < usize_limit p → u64_to_usize p value ≡ ok value
unfolding u64_to_usize
u64_to_usize-lt p value h = ground arith

-- A length written as a `u64` is read back as a `usize`.
pub usize_from_u64_le_bytes-to_le_bytes :
    (p : Platform) (value : ℕ)
    → IsSupported p
    → value < usize_limit p
    → usize_from_u64_le_bytes p (to_le_bytes 8 value) ≡ ok value
unfolding usize_from_u64_le_bytes
usize_from_u64_le_bytes-to_le_bytes p value s h =
    rw (length-to_le_bytes 8 value)
      (rw (from_le_bytes-to_le_bytes 8 value (omega (arith, s.below))) (u64_to_usize-lt p value h))
