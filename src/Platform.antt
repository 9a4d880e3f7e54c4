-- ===== src/Platform.antt =====
-- What the compiled code depends on: the width of `usize` and the profile's overflow checks
-- (on in a debug build, off in `[profile.release]` of Cargo.toml). Slicing is std's.
use native.Mathlib.Nat.{pow-suc, mod-eq-sub-mod, mod-eq_of_lt}
use ractor_wormhole.Prelude.{
  ℕ, zero, suc, ◌+◌, ◌-◌, ◌*◌, ◌%◌, ◌^◌, ◌≤◌, ◌<◌, ◌≡◌, refl, lt→ltb, ap, ◌∙◌, Bool, false, ◌&&◌,
  ◌++◌, arith, ltb, leb, ltb-false, if◌then◌else◌, length, take, drop, take-length, drop-length,
  length-append,
}
use ractor_wormhole.Outcome.{Outcome, ok, panic, Bytes}

pub record Platform : Type 0 where
  pub usize_bits : ℕ
  pub overflow_checks : Bool

-- `usize::MAX + 1`, and `isize::MAX + 1`, the bound on the length of every allocation.
abbrev pub usize_limit : Platform → ℕ
usize_limit p = 2 ^ p.usize_bits

abbrev pub isize_limit : Platform → ℕ
isize_limit p = 2 ^ (p.usize_bits - 1)

-- Rust's `usize` has 16 bits at least, and the crate asserts `size_of::<usize>() <= 8`.
pub record IsSupported (p : Platform) : Type 0 where
  pub above : 2 ^ 16 ≤ usize_limit p
  pub below : usize_limit p ≤ 2 ^ 64

pred_suc : (n : ℕ) → suc n - 1 ≡ n
pred_suc n = omega arith

pub isize_limit-double : (p : Platform) → IsSupported p → isize_limit p * 2 ≡ usize_limit p
isize_limit-double p s = double p.usize_bits s.above
  where
    double : (bits : ℕ) → 2 ^ 16 ≤ 2 ^ bits → 2 ^ (bits - 1) * 2 ≡ 2 ^ bits
    double zero h = absurd (omega arith)
    double (suc bits) h = omega (arith, pow-suc 2 bits, ap (λ (n : ℕ). 2 ^ n) (pred_suc bits))

-- `a + b` on `usize`.
unfoldable pub add_usize : Platform → ℕ → ℕ → Outcome ℕ
add_usize p a b =
    if ltb (a + b) (usize_limit p)
    then ok (a + b)
    else if p.overflow_checks
    then panic
    else ok ((a + b) % usize_limit p)

-- `a * b` on `usize`.
unfoldable pub mul_usize : Platform → ℕ → ℕ → Outcome ℕ
mul_usize p a b =
    if ltb (a * b) (usize_limit p)
    then ok (a * b)
    else if p.overflow_checks
    then panic
    else ok ((a * b) % usize_limit p)

pub mul_usize-fits : (p : Platform) (a b : ℕ) → a * b < usize_limit p → mul_usize p a b ≡ ok (a * b)
unfolding mul_usize
mul_usize-fits p a b h = rw (lt→ltb _ _ h) refl

-- `&data[from..to]`
unfoldable pub slice : Bytes → ℕ → ℕ → Outcome Bytes
slice buffer from to =
    if leb from to && leb to (length buffer)
    then ok (take (to - from) (drop from buffer))
    else panic

pub add_usize-fits : (p : Platform) (a b : ℕ) → a + b < usize_limit p → add_usize p a b ≡ ok (a + b)
unfolding add_usize
add_usize-fits p a b h = ground arith

-- An overflow panics, or leaves a sum below its first operand.
pub add_usize-wraps :
    (p : Platform) (a b : ℕ)
    → a < usize_limit p
    → b < usize_limit p
    → usize_limit p ≤ a + b
    → p.overflow_checks ≡ false
    → add_usize p a b ≡ ok (a + b - usize_limit p)
unfolding add_usize
add_usize-wraps p a b ha hb h e =
    rw (ltb-false (a + b) (usize_limit p) h, e)
      (ap ok (mod-eq-sub-mod h ∙ mod-eq_of_lt (omega arith)))

pub slice_middle :
    (pre mid post : Bytes)
    → slice (pre ++ (mid ++ post)) (length pre) (length pre + length mid) ≡ ok mid
unfolding slice
slice_middle pre mid post =
    rw (drop-length pre (mid ++ post), slice)
      (ground
        (arith, length-append pre (mid ++ post), length-append mid post, take-length mid post))

-- The same at a buffer and at bounds that are equal to these.
pub slice_at :
    (before part after : Bytes) {buffer : Bytes} {from to : ℕ}
    → buffer ≡ before ++ (part ++ after)
    → from ≡ length before
    → to ≡ length before + length part
    → slice buffer from to ≡ ok part
slice_at before part after e f t = rw (e, f, t) (slice_middle before part after)
