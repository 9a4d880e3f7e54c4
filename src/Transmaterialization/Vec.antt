-- ===== src/Transmaterialization/Vec.antt =====
-- `Vec<T>` of transmaterialization/default_implementations.rs: the count, and then each element
-- behind its length. `size_of` is `size_of::<T>()`. What a buffer needs when it grows past the capacity that
-- it was made with is left to the allocator.
pub mod RoundTrip
pub mod Hostile
pub mod Termination
use native.Mathlib.Nat.{mod-eq_of_lt}
use ractor_wormhole.Prelude.{
  ℕ, zero, suc, ◌+◌, ◌*◌, ◌%◌, ◌^◌, ◌≤◌, ◌<◌, ◌≡◌, refl, sym, ap, ◌∙◌, List, [], ◌∷◌, ◌++◌,
  append_assoc, append-nil, length, length-append, ltb, if◌then◌else◌, true, false, arith, lt→ltb,
  ltb-false,
}
use ractor_wormhole.Outcome
use ractor_wormhole.Outcome.{Outcome, ok, panic, stuck, Bytes}
use ractor_wormhole.Outcome.Action.{Action, pure, lift, ◌>>=◌, ◌>>◌, bind-lift}
use ractor_wormhole.Platform.{
  Platform, IsSupported, usize_limit, isize_limit, slice, slice_at, mul_usize, add_usize,
}
use ractor_wormhole.Transmaterialization.Capacity.{with_capacity, reserve}
use ractor_wormhole.Transmaterialization.LeBytes.{to_le_bytes, length-to_le_bytes}
use ractor_wormhole.Transmaterialization.Util.{
  require_buffer_size, require_min_buffer_size, usize_from_u64_le_bytes, require_min_buffer_size-le,
  usize_from_u64_le_bytes-to_le_bytes,
}
use ractor_wormhole.Transmaterialization.Prefixed.{
  prefixed, At, At-next, At-end, At-length, length-prefixed,
}
use ractor_wormhole.Transmaterialization.Codec.{
  Transmaterializable, Crosses, frames, append_element, read_element, bind-append_element,
  bind-read_element, bind-require_buffer_size,
}

module _ (p : Platform) (size_of : ℕ) {S A : Type 0} (c : Transmaterializable S A) where
  pub write_elements : List A → Bytes → Action S Bytes
  write_elements [] buffer = pure buffer
  write_elements (x ∷ xs) buffer = do buffer ← append_element c x buffer; write_elements xs buffer

  -- `while offset < data.len()`, and the check behind it. Each round reads 8 bytes at least.
  pub read_elements : ℕ → Bytes → ℕ → List A → Action S (List A)
  read_elements zero buffer offset read = lift stuck
  read_elements (suc fuel) buffer offset read = elim (ltb offset (length buffer)) [
    | true ↦ (do
      (x, offset) ← read_element c p buffer offset
      read_elements fuel buffer offset (read ++ x ∷ []))
    | false ↦ (do lift (require_buffer_size buffer offset); pure read)
  ]

  pub vec : Transmaterializable S (List A)
  vec = record {
    immaterialize = λ xs. do
      lift (reserve p (length xs))
      write_elements xs (to_le_bytes 8 (length xs % 2 ^ 64));
    rematerialize = λ buffer. do
      lift (require_min_buffer_size buffer 8)
      header ← lift (slice buffer 0 8)
      count ← lift (usize_from_u64_le_bytes p header)
      lift (with_capacity p size_of count)
      read_elements (suc (length buffer)) buffer 8 [];
  }

  -- The elements cross one after the other.
  pub data CrossAll : List A → List A → List Bytes → S → S → S → S → Type 0 where
    nil : (s r : S) → CrossAll [] [] [] s s r r
    cons :
        {x y : A} {bytes : Bytes} {s s' s'' r r' r'' : S} {xs ys : List A} {more : List Bytes}
        → Crosses c x y bytes s s' r r'
        → CrossAll xs ys more s' s'' r' r''
        → CrossAll (x ∷ xs) (y ∷ ys) (bytes ∷ more) s s'' r r''
