-- ===== src/Transmaterialization/Hostile.antt =====
-- What the framing makes of a buffer that no encoder wrote.
use ractor_wormhole.Prelude.{
  ℕ, ◌+◌, ◌-◌, ◌≤◌, ◌<◌, ◌≡◌, ◌≢◌, inl, inr, true, Bool-cases, ◌++◌, length, length-append, take,
  drop, ltb-false, arith,
}
use ractor_wormhole.Outcome.{ok, panic, Bytes}
use ractor_wormhole.Platform.{
  Platform, IsSupported, usize_limit, add_usize, slice, add_usize-fits, add_usize-wraps, slice_at,
}
use ractor_wormhole.Transmaterialization.LeBytes.{to_le_bytes, from_le_bytes, length-to_le_bytes}
use ractor_wormhole.Transmaterialization.Util.{
  require_min_buffer_size, usize_from_u64_le_bytes, u64_to_usize, require_min_buffer_size-le,
  usize_from_u64_le_bytes-to_le_bytes,
}
use ractor_wormhole.Transmaterialization.Prefixed.{read_prefixed, read_span, At, At-length}

module _ (p : Platform) (supported : IsSupported p) where
  -- A bound that wraps around lies below the start of the slice.
  read_span-panics :
      (buffer : Bytes) (start size : ℕ)
      → start ≤ length buffer
      → length buffer < usize_limit p
      → size < usize_limit p
      → usize_limit p ≤ start + size
      → read_span p buffer start size ≡ panic
  unfolding read_span
  read_span-panics buffer start size h fits small over = elim (Bool-cases p.overflow_checks) [
    | inl checks ↦ rw (overflow checks)
    | inr wraps ↦ rw (add_usize-wraps p start size (omega arith) small over wraps) (
        rw (require_min_buffer_size-le buffer (start + size - usize_limit p) (omega arith))
          (rw inverted))
  ]
    where
      overflow : p.overflow_checks ≡ true → add_usize p start size ≡ panic
      overflow checks =
          unfold add_usize in rw (ltb-false (start + size) (usize_limit p) over, checks)

      inverted : slice buffer start (start + size - usize_limit p) ≡ panic
      inverted = unfold slice in ground arith

  -- Reading a part behind its length panics, with and without overflow checks, if the length fits
  -- `usize` and the end of the part does not.
  pub read_prefixed-panics :
      {buffer : Bytes} {offset : ℕ} (size : ℕ) (rest : Bytes)
      → length buffer < usize_limit p
      → At buffer offset (to_le_bytes 8 size ++ rest)
      → size < usize_limit p
      → usize_limit p ≤ offset + 8 + size
      → read_prefixed p buffer offset ≡ panic
  read_prefixed-panics {buffer = buffer} {offset = offset} size rest fits at small over =
      unfold read_prefixed in
      rw (add_usize-fits p offset 8 (omega (arith, room))) (
        rw (require_min_buffer_size-le buffer (offset + 8) (omega (arith, room))) (
          rw header (
            rw (usize_from_u64_le_bytes-to_le_bytes p size supported small)
              (read_span-panics buffer (offset + 8) size (omega (arith, room)) fits small over))))
    where
      room : offset + 8 ≤ length buffer
      room =
          omega (
            arith,
            At-length at,
            length-append (to_le_bytes 8 size) rest,
            length-to_le_bytes 8 size,
          )

      header : slice buffer offset (offset + 8) ≡ ok (to_le_bytes 8 size)
      header =
          slice_at at.0 (to_le_bytes 8 size) rest at.1 at.2
            (omega (arith, length-to_le_bytes 8 size, at.2))

  -- Reading a part behind its length from an offset inside the buffer does not panic if the end
  -- that the eight bytes state, read as a number, fits `usize`, and so do the eight bytes behind
  -- the buffer.
  pub read_prefixed-ne-panic :
      (buffer : Bytes) (offset : ℕ)
      → length buffer + 8 < usize_limit p
      → offset ≤ length buffer
      → offset + 8 + from_le_bytes (take 8 (drop offset buffer)) < usize_limit p
      → read_prefixed p buffer offset ≢ panic
  unfolding read_prefixed add_usize slice require_min_buffer_size usize_from_u64_le_bytes
      u64_to_usize
  read_prefixed-ne-panic buffer offset fits h sizes = ground (arith)
