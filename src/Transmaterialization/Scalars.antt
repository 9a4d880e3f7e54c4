-- ===== src/Transmaterialization/Scalars.antt =====
-- The values of a fixed size in transmaterialization/default_implementations.rs. A float is the
-- bit pattern that `to_le_bytes` writes.
use ractor_wormhole.Prelude.{
  ℕ, suc, ◌-◌, ◌*◌, ◌^◌, ◌≤◌, ◌<◌, ◌≡◌, ◌≢◌, refl, ap, Bool, true, false, [], ◌∷◌, ◌==◌, append-nil,
  length, take-length_self, ltb, lt→ltb, if◌then◌else◌, arith, All,
}
use ractor_wormhole.Prelude.Int.{ℤ, pos, negsuc}
use ractor_wormhole.Outcome.{
  Outcome, ok, err, panic, stuck, ◌>>=◌, ◌>>◌, Bytes, invalid_bool, exceeds_usize,
}
use ractor_wormhole.Outcome.Action.{pure, lift}
use ractor_wormhole.Platform.{
  Platform, IsSupported, usize_limit, isize_limit, isize_limit-double, slice, slice_at,
}
use ractor_wormhole.Transmaterialization.LeBytes.{
  IsByte, to_le_bytes, from_le_bytes, length-to_le_bytes, from_le_bytes-to_le_bytes,
  to_le_bytes-from_le_bytes, from_le_bytes-lt,
}
use ractor_wormhole.Transmaterialization.Util.{
  require_buffer_size, u64_to_usize, i64_to_isize, require_buffer_size-eq,
}
use ractor_wormhole.Transmaterialization.Codec.{Transmaterializable, Crosses}

-- `buffer[i]`: a panic out of range.
unfoldable pub first_byte : Bytes → Outcome ℕ
first_byte [] = panic
first_byte (b ∷ bs) = ok b

-- `require_buffer_size(data, $size)?; <$type>::from_le_bytes(data[0..$size].try_into()?)`
read_le_bytes : ℕ → Bytes → Outcome ℕ
read_le_bytes size buffer = do
  require_buffer_size buffer size
  bytes ← slice buffer 0 size
  ok (from_le_bytes bytes)

-- Two's complement in `size` bytes.
abbrev to_pattern : ℕ → ℤ → ℕ
to_pattern size (pos n) = n
to_pattern size (negsuc n) = 256 ^ size - 1 - n

abbrev from_pattern : ℕ → ℕ → ℤ
from_pattern size v = if ltb (v * 2) (256 ^ size) then pos v else negsuc (256 ^ size - 1 - v)

-- The range of a signed integer of `size` bytes.
abbrev pub InRange : ℕ → ℤ → Type 0
InRange size (pos n) = n * 2 < 256 ^ size
InRange size (negsuc n) = suc n * 2 ≤ 256 ^ size

-- `if data[0] == 0 { … } else if data[0] == 1 { … } else { … }`
to_bool : ℕ → Outcome Bool
to_bool b = if b == 0 then ok false else if b == 1 then ok true else err (invalid_bool b)

module _ {S : Type 0} where
  -- u8 to u128, f32 and f64.
  pub unsigned : ℕ → Transmaterializable S ℕ
  unsigned size = record {
    immaterialize = λ x. pure (to_le_bytes size x);
    rematerialize = λ buffer. lift (read_le_bytes size buffer);
  }

  -- i8 to i128.
  pub signed : ℕ → Transmaterializable S ℤ
  signed size = record {
    immaterialize = λ x. pure (to_le_bytes size (to_pattern size x));
    rematerialize = λ buffer. lift (do v ← read_le_bytes size buffer; ok (from_pattern size v));
  }

  -- `usize` travels as a `u64`, and `isize` as an `i64`.
  pub usize : Platform → Transmaterializable S ℕ
  usize p = record {
    immaterialize = λ x. pure (to_le_bytes 8 x);
    rematerialize = λ buffer. lift (do v ← read_le_bytes 8 buffer; u64_to_usize p v);
  }

  pub isize : Platform → Transmaterializable S ℤ
  isize p = record {
    immaterialize = λ x. pure (to_le_bytes 8 (to_pattern 8 x));
    rematerialize =
        λ buffer. lift (do v ← read_le_bytes 8 buffer; i64_to_isize p (from_pattern 8 v));
  }

  pub bool : Transmaterializable S Bool
  bool = record {
    immaterialize = λ x. pure (if x then 1 ∷ [] else 0 ∷ []);
    rematerialize =
        λ buffer. lift (do require_buffer_size buffer 1; b ← first_byte buffer; to_bool b);
  }

  pub unit : Transmaterializable S (Unit {0})
  unit = record {
    immaterialize = λ x. pure [];
    rematerialize = λ buffer. lift (do require_buffer_size buffer 0; ok tt);
  }

read_le_bytes-to_le_bytes :
    (size x : ℕ) → x < 256 ^ size → read_le_bytes size (to_le_bytes size x) ≡ ok x
unfolding read_le_bytes
read_le_bytes-to_le_bytes size x h =
    rw (require_buffer_size-eq (to_le_bytes size x) size (length-to_le_bytes size x))
      (rw whole (ap ok (from_le_bytes-to_le_bytes size x h)))
  where
    whole : slice (to_le_bytes size x) 0 size ≡ ok (to_le_bytes size x)
    whole =
        slice_at [] (to_le_bytes size x) [] (simp append-nil) refl
          (omega (arith, length-to_le_bytes size x))

from_pattern-to_pattern :
    (size : ℕ) (x : ℤ) → InRange size x → from_pattern size (to_pattern size x) ≡ x
from_pattern-to_pattern size (pos n) h = ground arith
from_pattern-to_pattern size (negsuc n) h = ground arith

to_pattern-lt : (size : ℕ) (x : ℤ) → InRange size x → to_pattern size x < 256 ^ size
to_pattern-lt size (pos n) h = omega arith
to_pattern-lt size (negsuc n) h = omega arith

-- `isize::MIN <= x <= isize::MAX`
abbrev pub FitsIsize : Platform → ℤ → Type 0
FitsIsize p (pos n) = n < isize_limit p
FitsIsize p (negsuc n) = n < isize_limit p

i64_to_isize-fits : (p : Platform) (x : ℤ) → FitsIsize p x → i64_to_isize p x ≡ ok x
unfolding i64_to_isize
i64_to_isize-fits p (pos n) h = rw (lt→ltb _ _ h)
i64_to_isize-fits p (negsuc n) h = rw (lt→ltb _ _ h)

FitsIsize-InRange : (p : Platform) (x : ℤ) → IsSupported p → FitsIsize p x → InRange 8 x
FitsIsize-InRange p (pos n) sup h = omega (arith, isize_limit-double p sup, sup.below)
FitsIsize-InRange p (negsuc n) sup h = omega (arith, isize_limit-double p sup, sup.below)

-- A buffer that is accepted holds the bytes of the number read.
read_le_bytes-ok :
    (size : ℕ) (buffer : Bytes) {v : ℕ}
    → read_le_bytes size buffer ≡ ok v
    → (length buffer ≡ size) × (v ≡ from_le_bytes buffer)
unfolding read_le_bytes require_buffer_size slice
read_le_bytes-ok size buffer h = ground (arith, take-length_self buffer)

module _ {S : Type 0} (s r : S) where
  -- An unsigned integer, or the bit pattern of a float, that fits its size crosses as that many
  -- bytes.
  pub unsigned-Crosses :
      (size x : ℕ) → x < 256 ^ size → Crosses (unsigned size) x x (to_le_bytes size x) s s r r
  unfolding unsigned
  unsigned-Crosses size x h = record {
    sent = refl;
    received = rw (read_le_bytes-to_le_bytes size x h);
  }

  -- A signed integer within the range of its size crosses as that many bytes in two's complement.
  pub signed-Crosses :
      (size : ℕ) (x : ℤ)
      → InRange size x
      → Crosses (signed size) x x (to_le_bytes size (to_pattern size x)) s s r r
  unfolding signed
  signed-Crosses size x h = record {
    sent = refl;
    received =
        rw (read_le_bytes-to_le_bytes size (to_pattern size x) (to_pattern-lt size x h))
          (rw (from_pattern-to_pattern size x h));
  }

  -- A `usize` of one platform, sent as eight bytes, is rebuilt on a platform that has the value,
  -- and refused with an error that names the value on every other.
  pub usize-between :
      (p q : Platform) (x : ℕ)
      → IsSupported p
      → x < usize_limit p
      → ((usize p).immaterialize x s ≡ (ok (to_le_bytes 8 x), s))
        × ((usize q).rematerialize (to_le_bytes 8 x) r
            ≡ (if ltb x (usize_limit q) then ok x else err (exceeds_usize x), r))
  unfolding usize u64_to_usize
  usize-between p q x sup h = (refl, rw (read_le_bytes-to_le_bytes 8 x (omega (arith, sup.below))))

  -- An `isize` within the platform's range crosses as eight bytes in two's complement.
  pub isize-Crosses :
      (p : Platform) (x : ℤ)
      → IsSupported p
      → FitsIsize p x
      → Crosses (isize p) x x (to_le_bytes 8 (to_pattern 8 x)) s s r r
  unfolding isize
  isize-Crosses p x sup h = record {
    sent = refl;
    received =
        rw (read_le_bytes-to_le_bytes 8 (to_pattern 8 x) (to_pattern-lt 8 x wide))
          (rw (from_pattern-to_pattern 8 x wide) (rw (i64_to_isize-fits p x h)));
  }
    where
      wide : InRange 8 x
      wide = FitsIsize-InRange p x sup h

  pub bool-Crosses : (x : Bool) → Crosses bool x x (if x then 1 ∷ [] else 0 ∷ []) s s r r
  unfolding bool first_byte to_bool require_buffer_size
  bool-Crosses true = record { sent = refl; received = refl }
  bool-Crosses false = record { sent = refl; received = refl }

  pub unit-Crosses : Crosses unit tt tt [] s s r r
  unfolding unit require_buffer_size
  unit-Crosses = record { sent = refl; received = refl }

  -- If a buffer of bytes is accepted as an unsigned integer, the integer fits its size, and
  -- sending it writes exactly this buffer.
  pub unsigned-accepts :
      (size : ℕ) (buffer : Bytes) (x : ℕ) {r' : S}
      → All IsByte buffer
      → (unsigned size).rematerialize buffer r ≡ (ok x, r')
      → (x < 256 ^ size) × ((unsigned size).immaterialize x s ≡ (ok buffer, s))
  unfolding unsigned
  unsigned-accepts size buffer x bytes e =
      let (size_eq, value) = read_le_bytes-ok size buffer (ap (λ (t : Outcome ℕ × S). t.0) e) in
      (
        rw (← size_eq, value) (from_le_bytes-lt buffer bytes),
        rw (← size_eq, value)
            (ap (λ (b : Bytes). (ok b, s)) (to_le_bytes-from_le_bytes buffer bytes)),
      )

pub unsigned-ne-stuck :
    {S : Type 0} (size : ℕ) (buffer : Bytes) (r : S)
    → ((unsigned size).rematerialize buffer r).0 ≢ stuck
unfolding unsigned read_le_bytes require_buffer_size slice
unsigned-ne-stuck size buffer r = ground arith
