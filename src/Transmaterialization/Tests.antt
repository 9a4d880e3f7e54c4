-- ===== src/Transmaterialization/Tests.antt =====
-- The codecs at concrete values, on a platform of 64 bits and one of 32.
use ractor_wormhole.Prelude.{ℕ, ◌-◌, ◌^◌, ◌<◌, ◌≡◌, ◌≢◌, false, [], ◌∷◌, ◌++◌, arith}
use ractor_wormhole.Outcome.{ok, err, panic, stuck, exceeds_usize}
use ractor_wormhole.Platform.{Platform, IsSupported}
use ractor_wormhole.Transmaterialization.LeBytes.{to_le_bytes, from_le_bytes}
use ractor_wormhole.Transmaterialization.Prefixed.{prefixed, length_header}
use ractor_wormhole.Transmaterialization.Codec.{Transmaterializable, Crosses, frames}
use ractor_wormhole.Transmaterialization.Scalars.{
  unsigned, usize, unsigned-Crosses, usize-between, unsigned-accepts, unsigned-ne-stuck,
}
use ractor_wormhole.Transmaterialization.Text.{string}
use ractor_wormhole.Transmaterialization.Choices.{result, failure, failure-Crosses}
use ractor_wormhole.Transmaterialization.Vec.{vec, CrossAll, nil, cons}
use ractor_wormhole.Transmaterialization.Vec.RoundTrip.{vec-Crosses, vec_received}
use ractor_wormhole.Transmaterialization.Vec.Termination.{vec-ne-stuck}
use ractor_wormhole.Transmaterialization.Vec.Hostile.{vec_count_panics, vec-length_panics}

abbrev platform_64 : Platform
platform_64 = record { usize_bits = 64; overflow_checks = false }

abbrev platform_32 : Platform
platform_32 = record { usize_bits = 32; overflow_checks = false }

supported : IsSupported platform_64
supported = record { above = omega arith; below = omega arith }

abbrev Nothing : Type 0
Nothing = Unit {0}

abbrev u8 : Transmaterializable Nothing ℕ
u8 = unsigned 1

u8-Crosses : (x : ℕ) → x < 256 → Crosses u8 x x (to_le_bytes 1 x) tt tt tt tt
u8-Crosses x h = unsigned-Crosses tt tt 1 x (omega arith)

seven : Crosses u8 7 7 (7 ∷ []) tt tt tt tt
unfolding to_le_bytes
seven = u8-Crosses 7 (omega arith)

two_sevens :
    CrossAll platform_64 1 u8 (7 ∷ 7 ∷ []) (7 ∷ 7 ∷ []) ((7 ∷ []) ∷ (7 ∷ []) ∷ []) tt tt tt tt
two_sevens = cons seven (cons seven (nil tt tt))

vec-Crosses_example :
    Crosses
      (vec platform_64 1 u8)
      (7 ∷ 7 ∷ [])
      (7 ∷ 7 ∷ [])
      (to_le_bytes 8 2 ++ frames ((7 ∷ []) ∷ (7 ∷ []) ∷ []))
      tt
      tt
      tt
      tt
unfolding prefixed length_header to_le_bytes
vec-Crosses_example =
    vec-Crosses platform_64 1 u8 two_sevens supported (omega arith) (omega arith) (omega arith)

vec_received_example :
    (vec platform_64 1 u8).rematerialize (to_le_bytes 8 9 ++ frames ((7 ∷ []) ∷ (7 ∷ []) ∷ [])) tt
    ≡ (ok (7 ∷ 7 ∷ []), tt)
unfolding prefixed length_header to_le_bytes
vec_received_example =
    vec_received platform_64 1 u8 9 two_sevens supported (omega arith) (omega arith) (omega arith)

vec_count_panics_example :
    (vec platform_64 1 u8).rematerialize (to_le_bytes 8 (2 ^ 63) ++ (1 ∷ [])) tt ≡ (panic, tt)
vec_count_panics_example =
    vec_count_panics platform_64 1 u8 supported (2 ^ 63) (1 ∷ []) tt (omega arith) (omega arith)

vec-length_panics_example :
    (vec platform_64 1 u8).rematerialize
      (to_le_bytes 8 1 ++ (to_le_bytes 8 (2 ^ 64 - 1) ++ (7 ∷ [])))
      tt
    ≡ (panic, tt)
vec-length_panics_example =
    vec-length_panics platform_64 1 u8 supported 1 (2 ^ 64 - 1) (7 ∷ []) tt (omega arith)
      (omega arith) (omega arith) (omega arith) (omega arith)

failure-Crosses_example :
    Crosses
      (result platform_64 (string platform_64) u8)
      (failure 7)
      (failure 7)
      (1 ∷ prefixed (7 ∷ []))
      tt
      tt
      tt
      tt
unfolding prefixed length_header to_le_bytes
failure-Crosses_example =
    failure-Crosses platform_64 supported (string platform_64) u8 seven (omega arith)

usize_from_64_to_32 :
    ((usize platform_64).immaterialize (2 ^ 40) tt ≡ (ok (to_le_bytes 8 (2 ^ 40)), tt))
    × ((usize platform_32).rematerialize (to_le_bytes 8 (2 ^ 40)) tt
        ≡ (err (exceeds_usize (2 ^ 40)), tt))
usize_from_64_to_32 = usize-between tt tt platform_64 platform_32 (2 ^ 40) supported (omega arith)

unsigned-accepts_example :
    (258 < 256 ^ 2) × ((unsigned 2).immaterialize 258 tt ≡ (ok (2 ∷ 1 ∷ []), tt))
unfolding from_le_bytes to_le_bytes
unsigned-accepts_example =
    unsigned-accepts tt tt 2 (2 ∷ 1 ∷ []) 258 (omega arith, (omega arith, tt))
      (unsigned-Crosses tt tt 2 258 (omega arith)).received

vec-ne-stuck_example :
    ((vec platform_64 1 u8).rematerialize (1 ∷ 0 ∷ 0 ∷ 0 ∷ 0 ∷ 0 ∷ 0 ∷ 0 ∷ 5 ∷ []) tt).0 ≢ stuck
vec-ne-stuck_example =
    vec-ne-stuck platform_64 1 u8 (unsigned-ne-stuck 1) (1 ∷ 0 ∷ 0 ∷ 0 ∷ 0 ∷ 0 ∷ 0 ∷ 0 ∷ 5 ∷ []) tt
