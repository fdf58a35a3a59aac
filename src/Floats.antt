-- ===== src/Floats.antt =====
-- The processor's floating point. A `float` is its 32-bit pattern and a `double` its 64-bit
-- pattern, both as numbers, so that values are stored, compared byte by byte and sent exactly as
-- the program does; arithmetic and the ordered comparisons are the operations of a `FloatOps`.
use chowdy.Base.{ℕ, ◌≡◌, Bool, true, false, ℤ}

pub record FloatOps : Type 0 where
  -- double
  pub add64 : ℕ → ℕ → ℕ
  pub mul64 : ℕ → ℕ → ℕ
  pub div64 : ℕ → ℕ → ℕ
  pub sqrt64 : ℕ → ℕ
  pub lt64 : ℕ → ℕ → Bool
  pub le64 : ℕ → ℕ → Bool
  -- float
  pub add32 : ℕ → ℕ → ℕ
  pub sub32 : ℕ → ℕ → ℕ
  pub mul32 : ℕ → ℕ → ℕ
  pub div32 : ℕ → ℕ → ℕ
  pub lt32 : ℕ → ℕ → Bool
  -- conversions
  pub to_f64 : ℕ → ℕ
  pub to_f32 : ℕ → ℕ
  -- `static_cast<float>` of an integer, and back towards zero
  pub of_int : ℤ → ℕ
  pub trunc32 : ℕ → ℤ

-- What IEEE 754 promises of the ordered comparisons, NaN included.
pub record IsOrdered (fl : FloatOps) : Type 0 where
  pub lt64_irrefl : (a : ℕ) → fl.lt64 a a ≡ false
  pub lt64_trans : (a b c : ℕ) → fl.lt64 a b ≡ true → fl.lt64 b c ≡ true → fl.lt64 a c ≡ true
  pub lt64_le64_trans : (a b c : ℕ) → fl.lt64 a b ≡ true → fl.le64 b c ≡ true → fl.lt64 a c ≡ true
  pub le64_lt64_trans : (a b c : ℕ) → fl.le64 a b ≡ true → fl.lt64 b c ≡ true → fl.lt64 a c ≡ true
  pub lt32_irrefl : (a : ℕ) → fl.lt32 a a ≡ false
  pub lt32_trans : (a b c : ℕ) → fl.lt32 a b ≡ true → fl.lt32 b c ≡ true → fl.lt32 a c ≡ true

-- The patterns of the literals in the program.
abbrev pub f64_zero : ℕ
f64_zero = 0

abbrev pub f64_one : ℕ
f64_one = 0x3ff0_0000_0000_0000

abbrev pub f64_minus_one : ℕ
f64_minus_one = 0xbff0_0000_0000_0000

-- 1e-12
abbrev pub f64_epsilon : ℕ
f64_epsilon = 0x3d71_9799_812d_ea11

abbrev pub f32_zero : ℕ
f32_zero = 0

-- 0.40f
abbrev pub f32_floor : ℕ
f32_floor = 0x3ecc_cccd

-- 0.05f
abbrev pub f32_margin : ℕ
f32_margin = 0x3d4c_cccd

-- 0.15f, 0.80f and 360.f
abbrev pub f32_too_far : ℕ
f32_too_far = 0x3e19_999a

abbrev pub f32_too_close : ℕ
f32_too_close = 0x3f4c_cccd

abbrev pub f32_frame_height : ℕ
f32_frame_height = 0x43b4_0000

-- 0.5f, 1.f, 127.5f and 128.f
abbrev pub f32_half : ℕ
f32_half = 0x3f00_0000

abbrev pub f32_one : ℕ
f32_one = 0x3f80_0000

abbrev pub f32_mid_grey : ℕ
f32_mid_grey = 0x42ff_0000

abbrev pub f32_128 : ℕ
f32_128 = 0x4300_0000
