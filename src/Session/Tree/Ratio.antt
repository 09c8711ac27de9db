-- ===== src/Session/Tree/Ratio.antt =====
-- Split ratios, `f32` in the source: a value is its IEEE 754 bit pattern, a number below 2^32. Bit
-- patterns of floats that are not negative and no NaN are ordered as the floats are.
use forgetty.Base.{ℕ, ◌%◌, ◌^◌, ◌≤◌, ◌≡◌, Bool, false, arith, ltb, leb, if◌then◌else◌}

-- 0.05, 0.5 and 0.95, rounded to the nearest float.
abbrev pub lowest : ℕ
lowest = 0x3d4ccccd

abbrev pub half : ℕ
half = 0x3f000000

abbrev pub highest : ℕ
highest = 0x3f733333

abbrev pub infinity : ℕ
infinity = 0x7f800000

abbrev pub sign_bit : ℕ
sign_bit = 2 ^ 31

-- The exponent is all ones and the mantissa is not zero; the sign does not matter.
unfoldable pub is_nan : ℕ → Bool
is_nan bits = ltb infinity (bits % sign_bit)

-- `ratio.clamp(0.05, 0.95)`: `f32::clamp` returns a NaN unchanged, and anything with the sign bit is
-- at most -0.0, below the lower bound.
unfoldable pub clamp : ℕ → ℕ
unfolding is_nan
clamp bits =
    if is_nan bits
    then bits
    else (if leb sign_bit bits
        then lowest
        else (if ltb bits lowest then lowest else (if ltb highest bits then highest else bits)))

-- A ratio from a client, unless it is a NaN, is stored between 0.05 and 0.95, bounds included.
clamp_bounds : (bits : ℕ) → is_nan bits ≡ false → (lowest ≤ clamp bits) × (clamp bits ≤ highest)
unfolding clamp
clamp_bounds bits h = ground arith

pub clamp_inside : (bits : ℕ) → lowest ≤ bits → bits ≤ highest → clamp bits ≡ bits
unfolding clamp
clamp_inside bits h k = ground arith
