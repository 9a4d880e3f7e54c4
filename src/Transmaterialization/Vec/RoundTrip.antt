-- ===== src/Transmaterialization/Vec/RoundTrip.antt =====
-- A Vec whose elements cross one by one crosses.
use native.Mathlib.Nat.{mod-eq_of_lt}
use ractor_wormhole.Prelude.{
  ℕ, zero, suc, ◌+◌, ◌*◌, ◌^◌, ◌≤◌, ◌<◌, ◌≡◌, refl, sym, ap, ◌∙◌, List, [], ◌∷◌, ◌++◌, append_assoc,
  append-nil, length, length-append, arith, lt→ltb, ltb-false,
}
use ractor_wormhole.Outcome.{ok, Bytes}
use ractor_wormhole.Outcome.Action.{lift, ◌>>◌, bind-lift}
use ractor_wormhole.Platform.{Platform, IsSupported, usize_limit, isize_limit, slice, slice_at}
use ractor_wormhole.Transmaterialization.Capacity.{
  with_capacity, reserve, with_capacity-lt, reserve-fits,
}
use ractor_wormhole.Transmaterialization.LeBytes.{to_le_bytes, length-to_le_bytes}
use ractor_wormhole.Transmaterialization.Util.{
  require_min_buffer_size, usize_from_u64_le_bytes, require_min_buffer_size-le,
  usize_from_u64_le_bytes-to_le_bytes,
}
use ractor_wormhole.Transmaterialization.Prefixed.{
  prefixed, At, At-next, At-end, At-length, length-prefixed,
}
use ractor_wormhole.Transmaterialization.Codec.{
  Transmaterializable, Crosses, frames, bind-append_element, bind-read_element,
  bind-require_buffer_size,
}
use ractor_wormhole.Transmaterialization.Vec.{
  vec, write_elements, read_elements, CrossAll, nil, cons,
}

-- There are at least as many bytes as parts.
length-frames-le : (parts : List Bytes) → length parts ≤ length (frames parts)
length-frames-le [] = omega arith
length-frames-le (bytes ∷ more) = omega (
  arith,
  length-append (prefixed bytes) (frames more),
  length-prefixed bytes,
  length-frames-le more,
)

module _ (p : Platform) (size_of : ℕ) {S A : Type 0} (c : Transmaterializable S A) where
  write_elements-CrossAll :
      {xs ys : List A} {parts : List Bytes} {s s' r r' : S} (buffer : Bytes)
      → CrossAll p size_of c xs ys parts s s' r r'
      → write_elements p size_of c xs buffer s ≡ (ok (buffer ++ frames parts), s')
  unfolding write_elements
  write_elements-CrossAll buffer (nil s r) = simp append-nil
  write_elements-CrossAll buffer (cons {bytes = bytes} {s'' = s''} {more = more} k ks) =
      bind-append_element c buffer _ k
      ∙ write_elements-CrossAll (buffer ++ prefixed bytes) ks
      ∙ ap (λ (b : Bytes). (ok b, s'')) (append_assoc buffer (prefixed bytes) (frames more))

  -- With one unit of fuel for each element and one more the loop reads them all.
  read_elements-CrossAll :
      (fuel : ℕ) {xs ys : List A} {parts : List Bytes} {s s' r r' : S} (buffer : Bytes) (offset : ℕ)
      (read : List A)
      → IsSupported p
      → length buffer < usize_limit p
      → CrossAll p size_of c xs ys parts s s' r r'
      → At buffer offset (frames parts)
      → length parts < fuel
      → read_elements p size_of c fuel buffer offset read r ≡ (ok (read ++ ys), r')
  unfolding read_elements
  read_elements-CrossAll zero buffer offset read sup fits ks at h = elim h [ ]
  read_elements-CrossAll (suc fuel) buffer offset read sup fits (nil s r) at h =
      rw (ltb-false offset (length buffer) (omega (arith, At-end at)), read_elements)
        (bind-require_buffer_size read r buffer offset (At-end at)
          ∙ ap (λ (l : List A). (ok l, r)) (simp append-nil))
  read_elements-CrossAll (suc fuel) buffer offset read sup fits
        (cons {y = y} {bytes = bytes} {r'' = r''} {ys = ys} {more = more} k ks) at h =
      rw
        (
          lt→ltb offset (length buffer) (
              omega (
                arith,
                At-length at,
                length-append (prefixed bytes) (frames more),
                length-prefixed bytes,
              )),
          read_elements,
        )
        (bind-read_element c p (frames more) _ sup fits at k
          ∙ read_elements-CrossAll fuel buffer (offset + 8 + length bytes) (read ++ y ∷ []) sup fits
              ks (At-next bytes (frames more) at) (omega arith)
          ∙ ap (λ (l : List A). (ok l, r'')) (append_assoc read (y ∷ []) ys))

  CrossAll-length :
      {xs ys : List A} {parts : List Bytes} {s s' r r' : S}
      → CrossAll p size_of c xs ys parts s s' r r'
      → length xs ≡ length parts
  CrossAll-length (nil s r) = refl
  CrossAll-length (cons k ks) = ap suc (CrossAll-length ks)

  -- The count is read, and used for nothing but the capacity.
  pub read_count :
      (count : ℕ) (rest : Bytes) (r : S)
      → IsSupported p
      → count < usize_limit p
      → let buffer : Bytes = to_le_bytes 8 count ++ rest in
        (vec p size_of c).rematerialize buffer r
        ≡ (lift (with_capacity p size_of count)
              >> read_elements p size_of c (suc (length buffer)) buffer 8 [])
            r
  unfolding vec
  read_count count rest r sup h =
      bind-lift (require_min_buffer_size buffer 8) _ r (
        require_min_buffer_size-le buffer 8
          (omega (arith, length-append header rest, length-to_le_bytes 8 count)))
      ∙ bind-lift (slice buffer 0 8) _ r
          (slice_at [] header rest refl refl (omega (arith, length-to_le_bytes 8 count)))
      ∙ bind-lift (usize_from_u64_le_bytes p header) _ r
          (usize_from_u64_le_bytes-to_le_bytes p count sup h)
    where
      header : Bytes
      header = to_le_bytes 8 count

      buffer : Bytes
      buffer = header ++ rest

  -- Whatever count the header of a Vec states, if the capacity for that count can be had, the
  -- reader returns all elements that follow, so a count that differs from their number is not
  -- refused.
  pub vec_received :
      (count : ℕ) {xs ys : List A} {parts : List Bytes} {s s' r r' : S}
      → CrossAll p size_of c xs ys parts s s' r r'
      → IsSupported p
      → count < usize_limit p
      → count * size_of < isize_limit p
      → length (to_le_bytes 8 count ++ frames parts) < usize_limit p
      → (vec p size_of c).rematerialize (to_le_bytes 8 count ++ frames parts) r ≡ (ok ys, r')
  vec_received count {parts = parts} {r = r} ks sup h room fits =
      read_count count (frames parts) r sup h
      ∙ bind-lift (with_capacity p size_of count) _ r (with_capacity-lt p size_of count room)
      ∙ read_elements-CrossAll _ _ 8 [] sup fits ks at
          (omega (arith, length-frames-le parts, At-length at))
    where
      at : At (to_le_bytes 8 count ++ frames parts) 8 (frames parts)
      at = (to_le_bytes 8 count, refl, sym (length-to_le_bytes 8 count))

  -- On a supported platform, if the elements of a Vec cross one after the other, the message fits
  -- `usize`, and the elements' memory and eight bytes for each element and for the count fit
  -- `isize`, the Vec crosses as its count followed by each element behind its length, and the loop
  -- that reads it ends with the elements in their order.
  pub vec-Crosses :
      {xs ys : List A} {parts : List Bytes} {s s' r r' : S}
      → CrossAll p size_of c xs ys parts s s' r r'
      → IsSupported p
      → length xs * size_of < isize_limit p
      → 8 + length xs * 8 < isize_limit p
      → length (to_le_bytes 8 (length xs) ++ frames parts) < usize_limit p
      → Crosses (vec p size_of c) xs ys (to_le_bytes 8 (length xs) ++ frames parts) s s' r r'
  vec-Crosses {xs = xs} {parts = parts} {s = s} ks sup room reserved fits = record {
    sent =
        unfold vec in
        bind-lift (reserve p (length xs)) _ s (reserve-fits p (length xs) sup reserved)
        ∙ rw (mod-eq_of_lt {n = length xs} {m = 2 ^ 64} (omega (arith, count, sup.below)))
            (write_elements-CrossAll _ ks);
    received = vec_received (length xs) ks sup (omega (arith, count)) room fits;
  }
    where
      count : length xs < usize_limit p
      count = omega (
        arith,
        CrossAll-length ks,
        length-frames-le parts,
        length-append (to_le_bytes 8 (length xs)) (frames parts),
        fits,
      )
