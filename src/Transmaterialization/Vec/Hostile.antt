-- ===== src/Transmaterialization/Vec/Hostile.antt =====
-- What a Vec makes of a header that no encoder wrote.
use ractor_wormhole.Prelude.{
  ℕ, ◌+◌, ◌*◌, ◌≤◌, ◌<◌, ◌≡◌, refl, sym, ap, ◌∙◌, ◌++◌, length, length-append, lt→ltb, ltb-false,
  arith,
}
use ractor_wormhole.Outcome.{Outcome, panic, Bytes}
use ractor_wormhole.Outcome.Action.{lift, bind-eq}
use ractor_wormhole.Platform.{Platform, IsSupported, usize_limit, isize_limit}
use ractor_wormhole.Transmaterialization.LeBytes.{to_le_bytes, length-to_le_bytes}
use ractor_wormhole.Transmaterialization.Prefixed.{At}
use ractor_wormhole.Transmaterialization.Hostile.{read_prefixed-panics}
use ractor_wormhole.Transmaterialization.Codec.{
  Transmaterializable, read_element, read_element-panics,
}
use ractor_wormhole.Transmaterialization.Vec.{vec, read_elements}
use ractor_wormhole.Transmaterialization.Capacity.{with_capacity, with_capacity-lt}
use ractor_wormhole.Transmaterialization.Vec.RoundTrip.{read_count}

module _ (p : Platform) (size_of : ℕ) {S A : Type 0} (c : Transmaterializable S A)
    (supported : IsSupported p) where
  -- On a supported platform, a Vec's buffer whose header states a count that no allocation can
  -- hold makes the reader panic, whatever follows the header.
  pub vec_count_panics :
      (count : ℕ) (rest : Bytes) (r : S)
      → count < usize_limit p
      → isize_limit p ≤ count * size_of
      → (vec p size_of c).rematerialize (to_le_bytes 8 count ++ rest) r ≡ (panic, r)
  vec_count_panics count rest r h huge =
      read_count p size_of c count rest r supported h
      ∙ bind-eq (lift (with_capacity p size_of count)) _
          (ap (λ (t : Outcome (Unit {0})). (t, r)) refused)
    where
      refused : with_capacity p size_of count ≡ panic
      refused = unfold with_capacity in rw (ltb-false _ _ huge)

  -- On a supported platform, a Vec's buffer whose first element states a length so near the limit
  -- of `usize` that the end of the element is no `usize` makes the reader panic instead of
  -- returning an error, if the capacity for the stated count can be had.
  pub vec-length_panics :
      (count size : ℕ) (rest : Bytes) (r : S)
      → count < usize_limit p
      → count * size_of < isize_limit p
      → 24 + length rest < usize_limit p
      → size < usize_limit p
      → usize_limit p ≤ 16 + size
      → (vec p size_of c).rematerialize (to_le_bytes 8 count ++ (to_le_bytes 8 size ++ rest)) r
        ≡ (panic, r)
  vec-length_panics count size rest r h room fits small over =
      read_count p size_of c count (to_le_bytes 8 size ++ rest) r supported h
      ∙ bind-eq (lift (with_capacity p size_of count)) _
          (ap (λ (t : Outcome (Unit {0})). (t, r)) (with_capacity-lt p size_of count room))
      ∙ unfold read_elements in
        rw (lt→ltb 8 (length buffer) (omega (arith, whole)), read_elements)
          (bind-eq (read_element c p buffer 8) _ (
            read_element-panics c p buffer 8 r
              (read_prefixed-panics p supported size rest (omega (arith, whole)) at small over)))
    where
      buffer : Bytes
      buffer = to_le_bytes 8 count ++ (to_le_bytes 8 size ++ rest)

      whole : length buffer ≡ 16 + length rest
      whole = omega (
        arith,
        length-append (to_le_bytes 8 count) (to_le_bytes 8 size ++ rest),
        length-append (to_le_bytes 8 size) rest,
        length-to_le_bytes 8 count,
        length-to_le_bytes 8 size,
      )

      at : At buffer 8 (to_le_bytes 8 size ++ rest)
      at = (to_le_bytes 8 count, refl, sym (length-to_le_bytes 8 count))
