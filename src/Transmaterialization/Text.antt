-- ===== src/Transmaterialization/Text.antt =====
-- `Vec<u8>`, `String` and `anyhow::Error` of transmaterialization/default_implementations.rs.
use ractor_wormhole.Prelude.{
  ◌+◌, ◌<◌, ◌≡◌, refl, ap, ◌∙◌, true, [], ◌++◌, append-nil, length, arith,
}
use ractor_wormhole.Outcome.{Outcome, ok, ◌>>=◌, ◌>>◌, Error, message, Bytes}
use ractor_wormhole.Outcome.Action.{pure, lift}
use ractor_wormhole.Outcome.Action
use ractor_wormhole.Platform.{
  Platform, IsSupported, usize_limit, isize_limit, isize_limit-double, add_usize, slice,
  add_usize-fits, slice_at,
}
use ractor_wormhole.Transmaterialization.Util.{
  require_buffer_size, require_min_buffer_size, usize_from_u64_le_bytes, require_buffer_size-eq,
  require_min_buffer_size-le,
}
use ractor_wormhole.Transmaterialization.Prefixed.{
  prefixed, length_header, length-length_header, length-prefixed,
  usize_from_u64_le_bytes-length_header, prefixed_lem,
}
use ractor_wormhole.Transmaterialization.Capacity.{reserve_sized, reserve_sized-fits}
use ractor_wormhole.Transmaterialization.Utf8.{is_utf8, from_utf8}
use ractor_wormhole.Transmaterialization.Codec.{Transmaterializable, Crosses}

-- The length, and then exactly that many bytes.
read_sized : Platform → Bytes → Outcome Bytes
read_sized p buffer = do
  require_min_buffer_size buffer 8
  header ← slice buffer 0 8
  size ← usize_from_u64_le_bytes p header
  end ← add_usize p 8 size
  require_buffer_size buffer end
  slice buffer 8 end

module _ (p : Platform) {S : Type 0} where
  -- `Vec::with_capacity(8 + self.len())`, the length, and the bytes.
  sized_bytes : Bytes → Action.Action S Bytes
  sized_bytes x = Action.◌>>=◌ (lift (reserve_sized p (length x))) (λ _. pure (prefixed x))

  pub byte_vec : Transmaterializable S Bytes
  byte_vec = record {
    immaterialize = λ x. sized_bytes x;
    rematerialize = λ buffer. lift (read_sized p buffer);
  }

  pub string : Transmaterializable S Bytes
  string = record {
    immaterialize = λ x. sized_bytes x;
    rematerialize = λ buffer. lift (do bytes ← read_sized p buffer; from_utf8 bytes);
  }

  -- `format!("{}", self)` is `display`; an error that comes in holds the text alone.
  pub anyhow_error : (display : Error → Bytes) → Transmaterializable S Error
  anyhow_error display = record {
    immaterialize = λ e. string.immaterialize (display e);
    rematerialize =
        λ buffer. Action.◌>>=◌ (string.rematerialize buffer) (λ text. pure (message text));
  }

read_sized-prefixed :
    (p : Platform) (x : Bytes)
    → IsSupported p
    → length (prefixed x) < usize_limit p
    → read_sized p (prefixed x) ≡ ok x
unfolding read_sized
read_sized-prefixed p x s fits =
    rw (require_min_buffer_size-le (prefixed x) 8 (omega (arith, length-prefixed x))) (
      rw header (
        rw (usize_from_u64_le_bytes-length_header p x s (omega (arith, length-prefixed x))) (
          rw (add_usize-fits p 8 (length x) (omega (arith, length-prefixed x)))
            (rw (require_buffer_size-eq (prefixed x) (8 + length x) (length-prefixed x)) body))))
  where
    header : slice (prefixed x) 0 8 ≡ ok (length_header x)
    header =
        slice_at [] (length_header x) x (prefixed_lem x) refl
          (omega (arith, length-length_header x))

    body : slice (prefixed x) 8 (8 + length x) ≡ ok x
    body =
        slice_at (length_header x) x []
          (prefixed_lem x ∙ ap (◌++◌ (length_header x)) (simp append-nil))
          (omega (arith, length-length_header x)) (omega (arith, length-length_header x))

module _ (p : Platform) {S : Type 0} (s r : S) (supported : IsSupported p) where
  fits_usize : (x : Bytes) → 8 + length x < isize_limit p → length (prefixed x) < usize_limit p
  fits_usize x fits = omega (arith, length-prefixed x, isize_limit-double p supported)

  written : (x : Bytes) → 8 + length x < isize_limit p → sized_bytes p x s ≡ (ok (prefixed x), s)
  unfolding sized_bytes
  written x fits =
      Action.bind-lift (reserve_sized p (length x)) _ s
        (reserve_sized-fits p (length x) supported fits)

  -- A `Vec<u8>` whose message fits `isize` crosses behind its length.
  pub byte_vec-Crosses :
      (x : Bytes) → 8 + length x < isize_limit p → Crosses (byte_vec p) x x (prefixed x) s s r r
  unfolding byte_vec sized_bytes
  byte_vec-Crosses x fits = record {
    sent = written x fits;
    received = rw (read_sized-prefixed p x supported (fits_usize x fits));
  }

  -- A string that is UTF-8 and whose message fits `isize` crosses behind its length.
  pub string-Crosses :
      (x : Bytes)
      → is_utf8 x ≡ true
      → 8 + length x < isize_limit p
      → Crosses (string p) x x (prefixed x) s s r r
  unfolding string from_utf8 sized_bytes
  string-Crosses x valid fits = record {
    sent = written x fits;
    received = rw (read_sized-prefixed p x supported (fits_usize x fits)) (rw valid);
  }

  -- An error whose text is UTF-8 and fits `isize` arrives as an error that holds this text and
  -- nothing else.
  pub anyhow_error-Crosses :
      (display : Error → Bytes) (e : Error)
      → is_utf8 (display e) ≡ true
      → 8 + length (display e) < isize_limit p
      → Crosses (anyhow_error p display) e (message (display e)) (prefixed (display e)) s s r r
  unfolding anyhow_error
  anyhow_error-Crosses display e valid fits =
      let text = string-Crosses (display e) valid fits in
      record {
        sent = text.sent;
        received = Action.bind-eq ((string p).rematerialize (prefixed (display e))) _ text.received;
      }
