-- ===== src/Transmaterialization/Vec/Termination.antt =====
-- The loop of Vec::rematerialize ends on every buffer.
use ractor_wormhole.Prelude.{
  ℕ, zero, suc, ◌+◌, ◌-◌, ◌≤◌, ◌<◌, ◌≡◌, ◌≢◌, refl, ap, subst, List, [], ◌∷◌, ◌++◌, arith, length,
  length-take, ltb, drop, inl, inr, Bool-cases,
}
use ractor_wormhole.Outcome.{Outcome, ok, err, panic, stuck, Bytes}
use ractor_wormhole.Outcome.Action.{Action, continue, lift, ◌>>=◌}
use ractor_wormhole.Platform.{Platform, add_usize, slice}
use ractor_wormhole.Transmaterialization.Util.{
  require_buffer_size, require_min_buffer_size, usize_from_u64_le_bytes, u64_to_usize,
}
use ractor_wormhole.Transmaterialization.Prefixed.{read_prefixed, read_span}
use ractor_wormhole.Transmaterialization.Codec.{Transmaterializable, read_element}
use ractor_wormhole.Transmaterialization.Vec.{vec, read_elements}
use ractor_wormhole.Transmaterialization.Capacity.{with_capacity}

slice-advances :
    (buffer : Bytes) (from to : ℕ) (part : Bytes)
    → slice buffer from to ≡ ok part
    → length part ≡ 8
    → from < to
unfolding slice
slice-advances buffer from to part e h = ground (arith, length-take (to - from) (drop from buffer))

read_span-le :
    (p : Platform) (buffer : Bytes) (start size : ℕ) (bytes : Bytes) (end : ℕ)
    → read_span p buffer start size ≡ ok (bytes, end)
    → (start ≤ end) × (end ≤ length buffer)
unfolding read_span slice
read_span-le p buffer start size bytes end e = ground arith

read_prefixed-advances :
    (p : Platform) (buffer : Bytes) (offset : ℕ) (bytes : Bytes) (end : ℕ)
    → read_prefixed p buffer offset ≡ ok (bytes, end)
    → (offset < end) × (end ≤ length buffer)
unfolding read_prefixed usize_from_u64_le_bytes
read_prefixed-advances p buffer offset bytes end e =
    grind (arith, slice-advances buffer offset, read_span-le p buffer)

read_prefixed-ne-stuck :
    (p : Platform) (buffer : Bytes) (offset : ℕ) → read_prefixed p buffer offset ≢ stuck
unfolding read_prefixed read_span add_usize slice require_min_buffer_size usize_from_u64_le_bytes
    u64_to_usize
read_prefixed-ne-stuck p buffer offset = ground arith

module _ {S A B : Type 0} where
  -- What a continuation returned, it returned from what the first step returned.
  continue-ok :
      (f : A → Action S B) (r : Outcome A) (s : S) {b : B} {s' : S}
      → continue f r s ≡ (ok b, s')
      → (a : A) × (r ≡ ok a) × (f a s ≡ (ok b, s'))
  continue-ok f (ok a) s e = (a, refl, e)
  continue-ok f (err x) s e = cc
  continue-ok f panic s e = cc
  continue-ok f stuck s e = cc

  continue-ne-stuck :
      (f : A → Action S B) (r : Outcome A) (s : S)
      → r ≢ stuck
      → ((a : A) → r ≡ ok a → (f a s).0 ≢ stuck)
      → (continue f r s).0 ≢ stuck
  continue-ne-stuck f (ok a) s n k = k a refl
  continue-ne-stuck f (err x) s n k = λ e. cc
  continue-ne-stuck f panic s n k = λ e. cc
  continue-ne-stuck f stuck s n k = absurd (n refl)

  bind-ne-stuck :
      (m : Action S A) (f : A → Action S B) (s : S)
      → (m s).0 ≢ stuck
      → ((a : A) → (m s).0 ≡ ok a → (f a (m s).1).0 ≢ stuck)
      → ((m >>= f) s).0 ≢ stuck
  unfolding ◌>>=◌
  bind-ne-stuck m f s n k = continue-ne-stuck f (m s).0 (m s).1 n k

module _ (p : Platform) (size_of : ℕ) {S A : Type 0} (c : Transmaterializable S A)
    (ends : (bytes : Bytes) (r : S) → (c.rematerialize bytes r).0 ≢ stuck) where
  read_element-advances :
      (buffer : Bytes) (offset : ℕ) (r : S) (x : A) (end : ℕ) (r' : S)
      → read_element c p buffer offset r ≡ (ok (x, end), r')
      → (offset < end) × (end ≤ length buffer)
  unfolding read_element ◌>>=◌
  read_element-advances buffer offset r x end r' e =
      let ((bytes, end'), spans, rest) = continue-ok _ (read_prefixed p buffer offset) r e in
      let (x', there, last) =
        continue-ok _ (c.rematerialize bytes r).0 (c.rematerialize bytes r).1 rest in
      let same : end' ≡ end = cc in
      subst (λ n. (offset < n) × (n ≤ length buffer)) same
        (read_prefixed-advances p buffer offset bytes end' spans)

  read_element-ne-stuck :
      (buffer : Bytes) (offset : ℕ) (r : S) → (read_element c p buffer offset r).0 ≢ stuck
  unfolding read_element ◌>>=◌
  read_element-ne-stuck buffer offset r =
      continue-ne-stuck _ (read_prefixed p buffer offset) r (read_prefixed-ne-stuck p buffer offset)
        λ a e.
          continue-ne-stuck _ (c.rematerialize a.0 r).0 (c.rematerialize a.0 r).1 (ends a.0 r)
            λ x e' h. cc

  read_elements-ne-stuck :
      (fuel : ℕ) (buffer : Bytes) (offset : ℕ) (read : List A) (r : S)
      → offset ≤ length buffer
      → length buffer < offset + fuel
      → (read_elements p size_of c fuel buffer offset read r).0 ≢ stuck
  unfolding read_elements require_buffer_size
  read_elements-ne-stuck zero buffer offset read r l h = absurd (omega arith)
  read_elements-ne-stuck (suc fuel) buffer offset read r l h =
      elim (Bool-cases (ltb offset (length buffer))) [
        | inr done ↦ rw (done, read_elements) (unfold ◌>>=◌ in ground arith)
        | inl more ↦
            rw (more, read_elements)
              (bind-ne-stuck (read_element c p buffer offset) _ r
                (read_element-ne-stuck buffer offset r)
                λ a e.
                  let bound =
                    read_element-advances buffer offset r a.0 a.1
                      (read_element c p buffer offset r).1
                      (ap (λ (t : Outcome (A × ℕ)). (t, (read_element c p buffer offset r).1)) e) in
                  read_elements-ne-stuck fuel buffer a.1 (read ++ a.0 ∷ [])
                    (read_element c p buffer offset r).1 bound.1 (omega arith))
      ]

  -- If the elements' own reader always ends, the loop of the Vec's reader ends on every buffer:
  -- the fuel, one more than the buffer's length, never runs out, with and without overflow checks.
  pub vec-ne-stuck : (buffer : Bytes) (r : S) → ((vec p size_of c).rematerialize buffer r).0 ≢ stuck
  unfolding vec
  vec-ne-stuck buffer r =
      bind-ne-stuck (lift (require_min_buffer_size buffer 8)) _ r at_least λ _ long.
        bind-ne-stuck (lift (slice buffer 0 8)) _ r sliced λ header _.
          bind-ne-stuck (lift (usize_from_u64_le_bytes p header)) _ r (counted header) λ count _.
            bind-ne-stuck (lift (with_capacity p size_of count)) _ r (reserved count) λ _ _.
              read_elements-ne-stuck (suc (length buffer)) buffer 8 [] r (header_fits buffer long)
                (omega arith)
    where
      at_least : require_min_buffer_size buffer 8 ≢ stuck
      at_least = unfold require_min_buffer_size in ground arith

      sliced : slice buffer 0 8 ≢ stuck
      sliced = unfold slice in ground arith

      counted : (header : Bytes) → usize_from_u64_le_bytes p header ≢ stuck
      counted header = unfold usize_from_u64_le_bytes in unfold u64_to_usize in ground arith

      reserved : (count : ℕ) → with_capacity p size_of count ≢ stuck
      reserved count = unfold with_capacity in ground arith

      header_fits : (b : Bytes) → require_min_buffer_size b 8 ≡ ok tt → 8 ≤ length b
      header_fits b e = unfold require_min_buffer_size in ground arith
