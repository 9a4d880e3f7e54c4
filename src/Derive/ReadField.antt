-- ===== src/Derive/ReadField.antt =====
-- The code that reads one field's bytes: the checks of `for_field`, which its copies for the fields of
-- a tuple, for a variant's name and for a payload repeat.
use ractor_wormhole.Prelude.{
  ℕ, ◌≡◌, refl, ap, ◌∙◌, [], length, ltb, leb, ◌==◌, if◌then◌else◌, arith,
}
use ractor_wormhole.Outcome.{
  Outcome, ok, err, panic, stuck, ◌>>=◌, ◌>>◌, Bytes, ensure, message, expected_bytes, end_of_data,
  length_exceeds_usize,
}
use ractor_wormhole.Platform.{Platform, usize_limit, add_usize, slice}
use ractor_wormhole.Transmaterialization.LeBytes.{from_le_bytes}
use ractor_wormhole.Transmaterialization.Util.{
  require_min_buffer_size, usize_from_u64_le_bytes, u64_to_usize,
}
use ractor_wormhole.Transmaterialization.Prefixed.{read_prefixed, read_span}

-- `u64::from_le_bytes(….try_into()?).try_into().map_err(…)`: eight bytes, and a value that `usize` has.
abbrev to_usize : Platform → Bytes → Outcome ℕ
to_usize p header = do
  ensure (length header == 8) (expected_bytes 8 (length header))
  if ltb (from_le_bytes header) (usize_limit p)
      then ok (from_le_bytes header)
      else err length_exceeds_usize

abbrev has_bytes : Bytes → ℕ → Outcome (Unit {0})
has_bytes buffer size = ensure (leb size (length buffer)) (end_of_data size (length buffer))

-- The bytes of one field and the offset behind them.
unfoldable pub read_field : Platform → Bytes → ℕ → Outcome (Bytes × ℕ)
read_field p buffer offset = do
  start ← add_usize p offset 8
  has_bytes buffer start
  header ← slice buffer offset start
  size ← to_usize p header
  end ← add_usize p start size
  has_bytes buffer end
  bytes ← slice buffer start end
  ok (bytes, end)

-- An outcome without the text of its error.
abbrev pub wordless {ℓ} : {A : Type ℓ} → Outcome A → Outcome A
wordless (err e) = err (message [])
wordless m = m

module _ {A B : Type 0} where
  -- The two go on alike where the first steps differ by the text of an error only.
  bind-wordless :
      (m n : Outcome A) (f g : A → Outcome B)
      → wordless m ≡ wordless n
      → ((a : A) → wordless (f a) ≡ wordless (g a))
      → wordless (m >>= f) ≡ wordless (n >>= g)
  bind-wordless (ok a) (ok b) f g e h = ground (arith, h a)
  bind-wordless (ok a) (err x) f g e h = cc
  bind-wordless (ok a) panic f g e h = cc
  bind-wordless (ok a) stuck f g e h = cc
  bind-wordless (err x) (err y) f g e h = refl
  bind-wordless (err x) (ok b) f g e h = cc
  bind-wordless (err x) panic f g e h = cc
  bind-wordless (err x) stuck f g e h = cc
  bind-wordless panic panic f g e h = refl
  bind-wordless panic (ok b) f g e h = cc
  bind-wordless panic (err y) f g e h = cc
  bind-wordless panic stuck f g e h = cc
  bind-wordless stuck stuck f g e h = refl
  bind-wordless stuck (ok b) f g e h = cc
  bind-wordless stuck (err y) f g e h = cc
  bind-wordless stuck panic f g e h = cc

-- The code that the macro writes for a field does what the library's own reader of a part does, on
-- every buffer: the same bytes, an error where that has one, a panic where that panics. Only the
-- texts of the errors differ.
pub read_field-read_prefixed :
    (p : Platform) (buffer : Bytes) (offset : ℕ)
    → wordless (read_field p buffer offset) ≡ wordless (read_prefixed p buffer offset)
unfolding read_field read_prefixed read_span
read_field-read_prefixed p buffer offset = bind-wordless (add_usize p offset 8) _ _ _ refl λ start.
    bind-wordless (has_bytes buffer start) _ _ _ (room start) λ _.
      bind-wordless (slice buffer offset start) _ _ _ refl λ header.
        bind-wordless (to_usize p header) _ _ _ (sizes header) λ size.
          bind-wordless (add_usize p start size) _ _ _ refl
            λ end. bind-wordless (has_bytes buffer end) _ _ _ (room end) λ _. refl
  where
    room :
        (end : ℕ) → wordless (has_bytes buffer end) ≡ wordless (require_min_buffer_size buffer end)
    room end = unfold require_min_buffer_size in ground arith

    sizes :
        (header : Bytes)
        → wordless (to_usize p header) ≡ wordless (usize_from_u64_le_bytes p header)
    sizes header = unfold usize_from_u64_le_bytes in unfold u64_to_usize in ground arith

wordless-ok : {A : Type 0} (m : Outcome A) {a : A} → wordless m ≡ ok a → m ≡ ok a
wordless-ok (ok a) e = e
wordless-ok (err x) e = cc
wordless-ok panic e = cc
wordless-ok stuck e = cc

-- What the library's reader reads, this one reads.
pub read_field-ok :
    (p : Platform) (buffer : Bytes) (offset : ℕ) {r : Bytes × ℕ}
    → read_prefixed p buffer offset ≡ ok r
    → read_field p buffer offset ≡ ok r
read_field-ok p buffer offset e =
    wordless-ok (read_field p buffer offset)
      (read_field-read_prefixed p buffer offset ∙ ap wordless e)
