-- ===== src/Word.antt =====
-- The C arithmetic of the fixed-width integers: an `int32_t` is its two's complement bit pattern, a
-- number below 2 ^ 32. Sums, differences and products wrap, `/` and `%` truncate towards zero.
pub mod Signed
use chromatron.Base.{ℕ, ◌+◌, ◌-◌, ◌*◌, ◌/◌, ◌%◌, ◌^◌, ◌<◌, Bool, ltb, leb, ◌==◌, if◌then◌else◌, not}

abbrev pub word : ℕ
word = 2 ^ 32

abbrev pub IsWord : ℕ → Type 0
IsWord w = w < 2 ^ 32

unfoldable pub add32 : ℕ → ℕ → ℕ
add32 a b = (a + b) % 2 ^ 32

unfoldable pub sub32 : ℕ → ℕ → ℕ
sub32 a b = (a + 2 ^ 32 - b) % 2 ^ 32

unfoldable pub mul32 : ℕ → ℕ → ℕ
mul32 a b = (a * b) % 2 ^ 32

unfoldable pub neg32 : ℕ → ℕ
neg32 a = (2 ^ 32 - a) % 2 ^ 32

abbrev pub is_neg : ℕ → Bool
is_neg a = leb (2 ^ 31) a

-- the absolute value, which at -2 ^ 31 is 2 ^ 31
unfoldable pub magnitude : ℕ → ℕ
magnitude a = if is_neg a then 2 ^ 32 - a else a

-- `a < b` on the signed values
unfoldable pub slt : ℕ → ℕ → Bool
slt a b = ltb ((a + 2 ^ 31) % 2 ^ 32) ((b + 2 ^ 31) % 2 ^ 32)

unfoldable pub sle : ℕ → ℕ → Bool
unfolding slt
sle a b = not (slt b a)

-- `a / b` and `a % b` for a divisor that is not zero. Of -2 ^ 31 and -1, whose quotient C leaves undefined, `sdiv`
-- gives the wrapped quotient, -2 ^ 31.
unfoldable pub sdiv : ℕ → ℕ → ℕ
sdiv a b =
    let q = magnitude a / magnitude b in
    if is_neg a
    then (if is_neg b then q % 2 ^ 32 else neg32 q)
    else (if is_neg b then neg32 q else q % 2 ^ 32)

unfoldable pub smod : ℕ → ℕ → ℕ
smod a b = let r = magnitude a % magnitude b in if is_neg a then neg32 r else r % 2 ^ 32

-- the conversion to `uint16_t`
unfoldable pub to_u16 : ℕ → ℕ
to_u16 a = a % 2 ^ 16
