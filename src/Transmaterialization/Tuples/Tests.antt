-- ===== src/Transmaterialization/Tuples/Tests.antt =====
-- The tuples at concrete values: bytes, that stand behind their lengths.
use ractor_wormhole.Prelude.{ℕ, ◌<◌, false, [], ◌∷◌, arith}
use ractor_wormhole.Platform.{Platform, IsSupported}
use ractor_wormhole.Transmaterialization.LeBytes.{to_le_bytes}
use ractor_wormhole.Transmaterialization.Prefixed.{prefixed, length_header}
use ractor_wormhole.Transmaterialization.Codec.{Transmaterializable, Crosses, frames}
use ractor_wormhole.Transmaterialization.Scalars.{unsigned, unsigned-Crosses}
use ractor_wormhole.Transmaterialization.Tuples.To12.{tuple_12, tuple_12-Crosses}

abbrev platform_64 : Platform
platform_64 = record { usize_bits = 64; overflow_checks = false }

abbrev platform_32 : Platform
platform_32 = record { usize_bits = 32; overflow_checks = false }

supported : IsSupported platform_64
supported = record { above = omega arith; below = omega arith }

abbrev Nothing : Type 0
Nothing = Unit {0}

abbrev u8 : Transmaterializable Nothing ℕ
u8 = unsigned 1

u8-Crosses : (x : ℕ) → x < 256 → Crosses u8 x x (to_le_bytes 1 x) tt tt tt tt
u8-Crosses x h = unsigned-Crosses tt tt 1 x (omega arith)

seven : Crosses u8 7 7 (7 ∷ []) tt tt tt tt
unfolding to_le_bytes
seven = u8-Crosses 7 (omega arith)

tuple_12-Crosses_example :
    Crosses
      (tuple_12 platform_64 u8 u8 u8 u8 u8 u8 u8 u8 u8 u8 u8 u8)
      (7, 7, 7, 7, 7, 7, 7, 7, 7, 7, 7, 7)
      (7, 7, 7, 7, 7, 7, 7, 7, 7, 7, 7, 7)
      (frames (
        (7 ∷ [])
        ∷ (7 ∷ [])
        ∷ (7 ∷ [])
        ∷ (7 ∷ [])
        ∷ (7 ∷ [])
        ∷ (7 ∷ [])
        ∷ (7 ∷ [])
        ∷ (7 ∷ [])
        ∷ (7 ∷ [])
        ∷ (7 ∷ [])
        ∷ (7 ∷ [])
        ∷ (7 ∷ [])
        ∷ []))
      tt
      tt
      tt
      tt
unfolding prefixed length_header to_le_bytes
tuple_12-Crosses_example =
    tuple_12-Crosses platform_64 u8 u8 u8 u8 u8 u8 u8 u8 u8 u8 u8 u8 seven seven seven seven seven
      seven seven seven seven seven seven seven supported (omega arith)
