-- ===== src/Transmaterialization/Prefixed.antt =====
-- A part of a message behind its length as a `u64`: how Vec, the tuples, Option, Result and the
-- derived types frame what they contain.
use ractor_wormhole.Prelude.{
  ℕ, ◌+◌, ◌%◌, ◌^◌, ◌<◌, ◌≡◌, refl, sym, ap, ◌∙◌, [], ◌++◌, arith, length, length-append,
  append_assoc,
}
use native.Mathlib.Nat.{mod-eq_of_lt}
use ractor_wormhole.Outcome.{Outcome, ok, ◌>>=◌, ◌>>◌, Bytes}
use ractor_wormhole.Platform.{
  Platform, IsSupported, usize_limit, add_usize, slice, add_usize-fits, slice_at,
}
use ractor_wormhole.Transmaterialization.LeBytes.{
  to_le_bytes, from_le_bytes, length-to_le_bytes, from_le_bytes-to_le_bytes,
}
use ractor_wormhole.Transmaterialization.Util.{
  usize_from_u64_le_bytes, require_min_buffer_size, require_min_buffer_size-le, u64_to_usize-lt,
}

-- `(bytes.len() as u64).to_le_bytes()`
unfoldable pub length_header : Bytes → Bytes
length_header bytes = to_le_bytes 8 (length bytes % 2 ^ 64)

-- What `extend_from_slice` of the header and of the bytes appends to the buffer.
unfoldable pub prefixed : Bytes → Bytes
prefixed bytes = length_header bytes ++ bytes

-- `size` bytes from `start`, and the offset behind them.
unfoldable pub read_span : Platform → Bytes → ℕ → ℕ → Outcome (Bytes × ℕ)
read_span p buffer start size = do
  end ← add_usize p start size
  require_min_buffer_size buffer end
  bytes ← slice buffer start end
  ok (bytes, end)

-- The bytes of one element and the offset behind them. The code computes each sum anew where it
-- uses it; the sums are the same.
unfoldable pub read_prefixed : Platform → Bytes → ℕ → Outcome (Bytes × ℕ)
unfolding read_span
read_prefixed p buffer offset = do
  start ← add_usize p offset 8
  require_min_buffer_size buffer start
  header ← slice buffer offset start
  size ← usize_from_u64_le_bytes p header
  read_span p buffer start size

-- The buffer at this offset goes on with `rest`.
abbrev pub At : Bytes → ℕ → Bytes → Type 0
At buffer offset rest = (before : Bytes) × (buffer ≡ before ++ rest) × (offset ≡ length before)

pub prefixed-append :
    (bytes rest : Bytes) → prefixed bytes ++ rest ≡ length_header bytes ++ (bytes ++ rest)
unfolding prefixed
prefixed-append bytes rest = append_assoc (length_header bytes) bytes rest

pub length-length_header : (bytes : Bytes) → length (length_header bytes) ≡ 8
unfolding length_header
length-length_header bytes = length-to_le_bytes 8 (length bytes % 2 ^ 64)

pub length-prefixed : (bytes : Bytes) → length (prefixed bytes) ≡ 8 + length bytes
unfolding prefixed
length-prefixed bytes =
    omega (arith, length-append (length_header bytes) bytes, length-length_header bytes)

pub from_le_bytes-length_header :
    (bytes : Bytes) → length bytes < 2 ^ 64 → from_le_bytes (length_header bytes) ≡ length bytes
unfolding length_header
from_le_bytes-length_header bytes h =
    rw (mod-eq_of_lt h) (from_le_bytes-to_le_bytes 8 (length bytes) h)

module _ (p : Platform) where
  pub usize_from_u64_le_bytes-length_header :
      (bytes : Bytes)
      → IsSupported p
      → length bytes < usize_limit p
      → usize_from_u64_le_bytes p (length_header bytes) ≡ ok (length bytes)
  unfolding usize_from_u64_le_bytes
  usize_from_u64_le_bytes-length_header bytes s h =
      rw (length-length_header bytes)
        (rw (from_le_bytes-length_header bytes (omega (arith, s.below))) (u64_to_usize-lt p _ h))

  read_prefixed_split :
      (before bytes rest : Bytes)
      → IsSupported p
      → length before + 8 + length bytes + length rest < usize_limit p
      → read_prefixed p (before ++ (length_header bytes ++ (bytes ++ rest))) (length before)
        ≡ ok (bytes, length before + 8 + length bytes)
  unfolding read_prefixed
  read_prefixed_split before bytes rest s h =
      rw (add_usize-fits p (length before) 8 (omega arith)) (
        rw (require_min_buffer_size-le whole (length before + 8) (omega (arith, size))) (
          rw header (
            rw (usize_from_u64_le_bytes-length_header bytes s (omega arith)) (
              rw (add_usize-fits p (length before + 8) (length bytes) (omega arith)) (
                rw
                  (require_min_buffer_size-le whole (length before + 8 + length bytes)
                    (omega (arith, size)))
                  (rw payload))))))
    where
      whole : Bytes
      whole = before ++ (length_header bytes ++ (bytes ++ rest))

      size : length whole ≡ length before + (8 + (length bytes + length rest))
      size = omega (
        arith,
        length-append before (length_header bytes ++ (bytes ++ rest)),
        length-append (length_header bytes) (bytes ++ rest),
        length-append bytes rest,
        length-length_header bytes,
      )

      header : slice whole (length before) (length before + 8) ≡ ok (length_header bytes)
      header =
          slice_at before (length_header bytes) (bytes ++ rest) refl refl
            (omega (arith, length-length_header bytes))

      payload : slice whole (length before + 8) (length before + 8 + length bytes) ≡ ok bytes
      payload =
          slice_at (before ++ length_header bytes) bytes rest
            (sym (append_assoc before (length_header bytes) (bytes ++ rest)))
            (omega (arith, length-append before (length_header bytes), length-length_header bytes))
            (omega (arith, length-append before (length_header bytes), length-length_header bytes))

  -- A prefixed part is read back, and the reader stops right behind it.
  pub read_prefixed-At :
      {buffer : Bytes} {offset : ℕ} (bytes rest : Bytes)
      → IsSupported p
      → length buffer < usize_limit p
      → At buffer offset (prefixed bytes ++ rest)
      → read_prefixed p buffer offset ≡ ok (bytes, offset + 8 + length bytes)
  read_prefixed-At bytes rest s fits (before, split, here) =
      rw (split, here, prefixed-append bytes rest)
        (read_prefixed_split before bytes rest s (
          omega (
            arith,
            ap length split,
            fits,
            length-append before (prefixed bytes ++ rest),
            length-append (prefixed bytes) rest,
            length-prefixed bytes,
          )))

pub At-next :
    {buffer : Bytes} {offset : ℕ} (bytes rest : Bytes)
    → At buffer offset (prefixed bytes ++ rest)
    → At buffer (offset + 8 + length bytes) rest
At-next bytes rest (before, split, here) = (
  before ++ prefixed bytes,
  split ∙ sym (append_assoc before (prefixed bytes) rest),
  omega (arith, length-append before (prefixed bytes), length-prefixed bytes),
)

-- At the end of the buffer the offset is its length.
pub At-end : {buffer : Bytes} {offset : ℕ} → At buffer offset [] → length buffer ≡ offset
At-end (before, split, here) = omega (arith, ap length split, length-append before [])

pub At-length :
    {buffer : Bytes} {offset : ℕ} {rest : Bytes}
    → At buffer offset rest
    → length buffer ≡ offset + length rest
At-length {rest = rest} (before, split, here) =
    omega (arith, ap length split, length-append before rest)

pub prefixed_lem : (bytes : Bytes) → prefixed bytes ≡ length_header bytes ++ bytes
unfolding prefixed
prefixed_lem bytes = refl
