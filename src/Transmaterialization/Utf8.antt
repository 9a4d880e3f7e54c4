-- ===== src/Transmaterialization/Utf8.antt =====
-- The check of `String::from_utf8` in the standard library: no overlong form, no surrogate, no code
-- point above 0x10FFFF.
use ractor_wormhole.Prelude.{
  ℕ, zero, suc, ◌≡◌, refl, Bool, true, false, ◌&&◌, [], ◌∷◌, ltb, leb, if◌then◌else◌,
}
use ractor_wormhole.Outcome.{Outcome, ok, err, Bytes, invalid_utf8}

-- How many bytes follow a first byte, and the range of the next one.
pub record Lead : Type 0 where
  pub follow : ℕ
  pub lowest : ℕ
  pub highest : ℕ
  pub legal : Bool

abbrev lead_of : ℕ → ℕ → ℕ → Lead
lead_of n lo hi = record { follow = n; lowest = lo; highest = hi; legal = true }

abbrev in_range : ℕ → ℕ → ℕ → Bool
in_range lo hi b = leb lo b && leb b hi

lead : ℕ → Lead
lead b =
    if ltb b 0x80
    then lead_of 0 0x80 0xBF
    else if in_range 0xC2 0xDF b
    then lead_of 1 0x80 0xBF
    else if in_range 0xE0 0xE0 b
    then lead_of 2 0xA0 0xBF
    else if in_range 0xE1 0xEC b
    then lead_of 2 0x80 0xBF
    else if in_range 0xED 0xED b
    then lead_of 2 0x80 0x9F
    else if in_range 0xEE 0xEF b
    then lead_of 2 0x80 0xBF
    else if in_range 0xF0 0xF0 b
    then lead_of 3 0x90 0xBF
    else if in_range 0xF1 0xF3 b
    then lead_of 3 0x80 0xBF
    else if in_range 0xF4 0xF4 b
    then lead_of 3 0x80 0x8F
    else record { follow = 0; lowest = 0; highest = 0; legal = false }

utf8_from : ℕ → ℕ → ℕ → Bytes → Bool
utf8_from zero lo hi [] = true
utf8_from (suc n) lo hi [] = false
utf8_from zero lo hi (b ∷ bs) =
    let l = lead b in l.legal && utf8_from l.follow l.lowest l.highest bs
utf8_from (suc n) lo hi (b ∷ bs) = in_range lo hi b && utf8_from n 0x80 0xBF bs

unfoldable pub is_utf8 : Bytes → Bool
unfolding lead utf8_from
is_utf8 bytes = utf8_from 0 0x80 0xBF bytes

unfoldable pub from_utf8 : Bytes → Outcome Bytes
from_utf8 bytes = if is_utf8 bytes then ok bytes else err invalid_utf8

euro_sign : is_utf8 (0xE2 ∷ 0x82 ∷ 0xAC ∷ []) ≡ true
unfolding is_utf8
euro_sign = refl

surrogate : is_utf8 (0xED ∷ 0xA0 ∷ 0x80 ∷ []) ≡ false
unfolding is_utf8
surrogate = refl

overlong : is_utf8 (0xC0 ∷ 0x80 ∷ []) ≡ false
unfolding is_utf8
overlong = refl
