-- ===== src/Conduit/Bytestream.antt =====
-- Reading and writing a stream of bytes: what `AsyncReadExt` and `AsyncWriteExt` of tokio do for the
-- byte-stream conduits. A reader holds the bytes that still come before the stream ends.
use native.Mathlib.Nat.{mod-eq_of_lt}
use ractor_wormhole.Prelude.{
  ℕ, ◌+◌, ◌*◌, ◌/◌, ◌%◌, ◌<◌, ◌≡◌, refl, ap, ◌∙◌, [], ◌∷◌, ◌++◌, ltb, leb, if◌then◌else◌, length,
  take, drop, take-length, drop-length, length-append, arith, lt→ltb,
}
use ractor_wormhole.Outcome.{ok, err, panic, Error, Bytes}
use ractor_wormhole.Outcome.Action.{Action, lift, ◌>>=◌, bind-eq, bind-lift}
use ractor_wormhole.Platform.{Platform, usize_limit, isize_limit}

-- `write_u32`, the highest byte first.
unfoldable pub to_be_bytes : ℕ → Bytes
to_be_bytes n = (n / 16777216 % 256) ∷ (n / 65536 % 256) ∷ (n / 256 % 256) ∷ (n % 256) ∷ []

-- `ended` is the error that a read beyond the last byte gives.
module _ (ended : Error) where
  unfoldable pub read_u8 : Action Bytes ℕ
  read_u8 [] = (err ended, [])
  read_u8 (b ∷ bs) = (ok b, bs)

  unfoldable pub read_u32 : Action Bytes ℕ
  read_u32 (a ∷ b ∷ c ∷ d ∷ bs) = (ok (a * 16777216 + b * 65536 + c * 256 + d), bs)
  read_u32 bs = (err ended, [])

  unfoldable pub read_exact : ℕ → Action Bytes Bytes
  read_exact n bs = if leb n (length bs) then (ok (take n bs), drop n bs) else (err ended, [])

  -- `vec![0u8; len]` for a `len` that came as a `u32`; a vector of more than `isize::MAX` bytes is a
  -- panic.
  unfoldable pub read_data : Platform → Action Bytes Bytes
  unfolding read_u32 read_exact ◌>>=◌
  read_data p = do
    size ← read_u32
    len ←
        lift
          (if ltb (size % usize_limit p) (isize_limit p) then ok (size % usize_limit p) else panic)
    read_exact len

  -- The length of fewer than 2^32 bytes, and these, are read back.
  read_u32-to_be_bytes :
      (n : ℕ) (rest : Bytes) → n < 4294967296 → read_u32 (to_be_bytes n ++ rest) ≡ (ok n, rest)
  unfolding read_u32 to_be_bytes
  read_u32-to_be_bytes n rest h = ap (λ (m : ℕ). (ok m, rest)) (omega arith)

  read_exact-append :
      (bytes rest : Bytes) → read_exact (length bytes) (bytes ++ rest) ≡ (ok bytes, rest)
  unfolding read_exact
  read_exact-append bytes rest =
      ground (arith, length-append bytes rest, take-length bytes rest, drop-length bytes rest)

  pub read_data-lem :
      (p : Platform) (bytes rest : Bytes)
      → length bytes < 4294967296
      → length bytes < isize_limit p
      → length bytes < usize_limit p
      → read_data p (to_be_bytes (length bytes) ++ (bytes ++ rest)) ≡ (ok bytes, rest)
  unfolding read_data
  read_data-lem p bytes rest small fits fits' =
      bind-eq read_u32 _ (read_u32-to_be_bytes (length bytes) (bytes ++ rest) small)
      ∙ bind-lift _ (read_exact) (bytes ++ rest)
          (rw (mod-eq_of_lt fits') (rw (lt→ltb (length bytes) (isize_limit p) fits) refl))
      ∙ read_exact-append bytes rest
