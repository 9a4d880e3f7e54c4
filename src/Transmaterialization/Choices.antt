-- ===== src/Transmaterialization/Choices.antt =====
-- `Result<T, E>` and `Option<T>` of transmaterialization/default_implementations.rs. Their length is
-- cut by `as usize`, where the other types refuse a length that `usize` does not have.
use native.Mathlib.Nat.{mod-eq_of_lt}
use ractor_wormhole.Prelude.{
  ℕ, ◌+◌, ◌%◌, ◌≤◌, ◌<◌, ◌≡◌, refl, ap, ◌∙◌, [], ◌∷◌, ◌++◌, ◌==◌, Option, none, some, append-nil,
  length, if◌then◌else◌, arith,
}
use ractor_wormhole.Outcome.{ok, err, invalid_result, invalid_option, Bytes}
use ractor_wormhole.Outcome.Action.{Action, pure, lift, ◌>>=◌, ◌>>◌, bind-eq, bind-lift}
use ractor_wormhole.Platform.{
  Platform, IsSupported, usize_limit, add_usize, slice, add_usize-fits, slice_at,
}
use ractor_wormhole.Transmaterialization.LeBytes.{from_le_bytes}
use ractor_wormhole.Transmaterialization.Util.{
  require_buffer_size, require_min_buffer_size, require_buffer_size-eq, require_min_buffer_size-le,
}
use ractor_wormhole.Transmaterialization.Prefixed.{
  prefixed, prefixed_lem, length_header, length-length_header, length-prefixed,
  from_le_bytes-length_header,
}
use ractor_wormhole.Transmaterialization.Scalars.{first_byte}
use ractor_wormhole.Transmaterialization.Codec.{Transmaterializable, Crosses}

-- `Result` of the language: the data that crosses.
pub data Result (A B : Type 0) : Type 0 where
  success : A → Result A B
  failure : B → Result A B

module _ (p : Platform) {S : Type 0} where
  -- Behind the discriminant: the length, and the bytes up to the end of the buffer.
  read_inner : Bytes → Action S Bytes
  read_inner buffer = do
    header ← lift (slice buffer 1 9)
    end ← lift (add_usize p 9 (from_le_bytes header % usize_limit p))
    lift (require_min_buffer_size buffer end)
    inner ← lift (slice buffer 9 end)
    lift (require_buffer_size buffer end)
    pure inner

  result_arm :
      {A B : Type 0}
      → Transmaterializable S A
      → Transmaterializable S B
      → ℕ
      → Bytes
      → Action S (Result A B)
  result_arm c d discriminant inner =
      if discriminant == 0
      then (do x ← c.rematerialize inner; pure (success x))
      else if discriminant == 1
      then (do e ← d.rematerialize inner; pure (failure e))
      else lift (err (invalid_result discriminant))

  option_arm : {A : Type 0} → Transmaterializable S A → ℕ → Bytes → Action S (Option A)
  option_arm c discriminant buffer =
      if discriminant == 0
      then (do lift (require_buffer_size buffer 1); pure none)
      else if discriminant == 1
      then (do
        lift (require_min_buffer_size buffer 9)
        inner ← read_inner buffer
        x ← c.rematerialize inner
        pure (some x))
      else lift (err (invalid_option discriminant))

  result_bytes :
      {A B : Type 0}
      → Transmaterializable S A
      → Transmaterializable S B
      → Result A B
      → Action S Bytes
  result_bytes c d (success x) = do bytes ← c.immaterialize x; pure (0 ∷ prefixed bytes)
  result_bytes c d (failure e) = do bytes ← d.immaterialize e; pure (1 ∷ prefixed bytes)

  option_bytes : {A : Type 0} → Transmaterializable S A → Option A → Action S Bytes
  option_bytes c (some x) = do bytes ← c.immaterialize x; pure (1 ∷ prefixed bytes)
  option_bytes c none = pure (0 ∷ [])

  pub result :
      {A B : Type 0}
      → Transmaterializable S A
      → Transmaterializable S B
      → Transmaterializable S (Result A B)
  unfolding result_bytes result_arm read_inner
  result c d = record {
    immaterialize = result_bytes c d;
    rematerialize = λ buffer. do
      lift (require_min_buffer_size buffer 9)
      discriminant ← lift (first_byte buffer)
      inner ← read_inner buffer
      result_arm c d discriminant inner;
  }

  pub option : {A : Type 0} → Transmaterializable S A → Transmaterializable S (Option A)
  unfolding option_bytes option_arm read_inner
  option c = record {
    immaterialize = option_bytes c;
    rematerialize = λ buffer. do
      lift (require_min_buffer_size buffer 1)
      discriminant ← lift (first_byte buffer)
      option_arm c discriminant buffer;
  }

  module _ (supported : IsSupported p) where
    read_inner-prefixed :
        (tag : ℕ) (bytes : Bytes) (r : S)
        → length (tag ∷ prefixed bytes) < usize_limit p
        → read_inner (tag ∷ prefixed bytes) r ≡ (ok bytes, r)
    unfolding read_inner
    read_inner-prefixed tag bytes r fits =
        bind-lift (slice buffer 1 9) _ r header
        ∙ bind-lift (add_usize p 9 (from_le_bytes (length_header bytes) % usize_limit p)) _ r end
        ∙ bind-lift (require_min_buffer_size buffer (9 + length bytes)) _ r
            (require_min_buffer_size-le buffer _ (omega (arith, size)))
        ∙ bind-lift (slice buffer 9 (9 + length bytes)) _ r body
        ∙ bind-lift (require_buffer_size buffer (9 + length bytes)) _ r
            (require_buffer_size-eq buffer _ size)
      where
        buffer : Bytes
        buffer = tag ∷ prefixed bytes

        size : length buffer ≡ 9 + length bytes
        size = omega (arith, length-prefixed bytes)

        header : slice buffer 1 9 ≡ ok (length_header bytes)
        header =
            slice_at (tag ∷ []) (length_header bytes) bytes
              (ap (λ (t : Bytes). tag ∷ t) (prefixed_lem bytes)) refl
              (omega (arith, length-length_header bytes))

        end :
            add_usize p 9 (from_le_bytes (length_header bytes) % usize_limit p)
            ≡ ok (9 + length bytes)
        end = rw (from_le_bytes-length_header bytes (omega (arith, size, supported.below))) (
            rw (mod-eq_of_lt {n = length bytes} {m = usize_limit p} (omega (arith, size)))
              (add_usize-fits p 9 (length bytes) (omega (arith, size))))

        body : slice buffer 9 (9 + length bytes) ≡ ok bytes
        body =
            slice_at (tag ∷ length_header bytes) bytes []
              (ap (λ (t : Bytes). tag ∷ t)
                (prefixed_lem bytes ∙ ap (◌++◌ (length_header bytes)) (simp append-nil)))
              (omega (arith, length-length_header bytes))
              (omega (arith, length-length_header bytes))

    -- What the two types read first.
    first_byte-cons :
        {B : Type 0} (size tag : ℕ) (bytes : Bytes) (r : S) (f : ℕ → Action S B)
        → size ≤ length (tag ∷ bytes)
        → (lift (require_min_buffer_size (tag ∷ bytes) size)
              >> (lift (first_byte (tag ∷ bytes)) >>= f))
            r
          ≡ f tag r
    unfolding first_byte
    first_byte-cons size tag bytes r f h =
        bind-lift (require_min_buffer_size (tag ∷ bytes) size) _ r
          (require_min_buffer_size-le _ size h)
        ∙ bind-lift (first_byte (tag ∷ bytes)) f r refl

    module _ {A : Type 0} (c : Transmaterializable S A) where
      -- If a value crosses and the message fits `usize`, the `Some` with it crosses behind the
      -- discriminant 1 and its length.
      pub some-Crosses :
          {x y : A} {bytes : Bytes} {s s' r r' : S}
          → Crosses c x y bytes s s' r r'
          → length (1 ∷ prefixed bytes) < usize_limit p
          → Crosses (option c) (some x) (some y) (1 ∷ prefixed bytes) s s' r r'
      unfolding option
      some-Crosses {x = x} {bytes = bytes} {r = r} k fits = record {
        sent = bind-eq (c.immaterialize x) _ k.sent;
        received =
            first_byte-cons 1 1 (prefixed bytes) r _ (omega arith)
            ∙ bind-lift (require_min_buffer_size (1 ∷ prefixed bytes) 9) _ r
                (require_min_buffer_size-le _ 9 (omega (arith, length-prefixed bytes)))
            ∙ bind-eq (read_inner (1 ∷ prefixed bytes)) _ (read_inner-prefixed 1 bytes r fits)
            ∙ bind-eq (c.rematerialize bytes) _ k.received;
      }

      -- `None` is one byte.
      pub none-Crosses : (s r : S) → Crosses (option c) none none (0 ∷ []) s s r r
      unfolding option
      none-Crosses s r = record {
        sent = refl;
        received =
            first_byte-cons 1 0 [] r _ (omega arith)
            ∙ bind-lift (require_buffer_size (0 ∷ []) 1) _ r (require_buffer_size-eq _ 1 refl);
      }

    module _ {A B : Type 0} (c : Transmaterializable S A) (d : Transmaterializable S B) where
      -- If a value crosses and the message fits `usize`, the `Ok` with it crosses behind the
      -- discriminant 0 and its length.
      pub success-Crosses :
          {x y : A} {bytes : Bytes} {s s' r r' : S}
          → Crosses c x y bytes s s' r r'
          → length (0 ∷ prefixed bytes) < usize_limit p
          → Crosses (result c d) (success x) (success y) (0 ∷ prefixed bytes) s s' r r'
      unfolding result
      success-Crosses {x = x} {bytes = bytes} {r = r} k fits = record {
        sent = bind-eq (c.immaterialize x) _ k.sent;
        received =
            first_byte-cons 9 0 (prefixed bytes) r _ (omega (arith, length-prefixed bytes))
            ∙ bind-eq (read_inner (0 ∷ prefixed bytes)) _ (read_inner-prefixed 0 bytes r fits)
            ∙ bind-eq (c.rematerialize bytes) _ k.received;
      }

      -- If an error crosses and the message fits `usize`, the `Err` with it crosses behind the
      -- discriminant 1 and its length.
      pub failure-Crosses :
          {x y : B} {bytes : Bytes} {s s' r r' : S}
          → Crosses d x y bytes s s' r r'
          → length (1 ∷ prefixed bytes) < usize_limit p
          → Crosses (result c d) (failure x) (failure y) (1 ∷ prefixed bytes) s s' r r'
      unfolding result
      failure-Crosses {x = x} {bytes = bytes} {r = r} k fits = record {
        sent = bind-eq (d.immaterialize x) _ k.sent;
        received =
            first_byte-cons 9 1 (prefixed bytes) r _ (omega (arith, length-prefixed bytes))
            ∙ bind-eq (read_inner (1 ∷ prefixed bytes)) _ (read_inner-prefixed 1 bytes r fits)
            ∙ bind-eq (d.rematerialize bytes) _ k.received;
      }
