-- ===== src/Util.antt =====
-- src/sapphireos/util.c: sequence numbers, interpolation, sorting and averages. An `int16_t` is its bit
-- pattern below 2 ^ 16; the C code computes with it as the `int32_t` that `extend` gives.
pub mod Sequence
pub mod Interpolation
pub mod Sorting
pub mod Averages
pub mod Ewma
mod Tests
use Prim.Native.Nat.{zero, suc}
use chromatron.Base.Sorting.{sort_by}
use chromatron.Base.{
  ℕ, ◌+◌, ◌-◌, ◌*◌, ◌/◌, ◌%◌, ◌^◌, Bool, true, false, ◌&&◌, Option, none, some, List, [], ◌∷◌, ltb,
  leb, ◌==◌, if◌then◌else◌, length,
}
use chromatron.Base.Int.{ℤ, pos, negsuc}
use chromatron.Word.{add32, mul32, slt, sdiv, to_u16}

unfoldable pub extend : ℕ → ℕ
extend a = if ltb a (2 ^ 15) then a else a + (2 ^ 32 - 2 ^ 16)

unfoldable pub abs16 : ℕ → ℕ
abs16 a = if ltb a (2 ^ 15) then a else 2 ^ 16 - a

-- The comparison for numbers below `2 * half`: the sign of their distance in the signed type of that
-- width.
unfoldable pub compare_sequence : ℕ → ℕ → ℕ → ℤ
compare_sequence half a b =
    let distance : ℕ = (a + 2 * half - b) % (2 * half) in
    if leb half distance then negsuc 0 else if ltb 0 distance then pos 1 else pos 0

-- util_i8_compare_sequence_u16 and util_i8_compare_sequence_u32
abbrev pub compare_sequence_u16 : ℕ → ℕ → ℤ
compare_sequence_u16 = compare_sequence (2 ^ 15)

abbrev pub compare_sequence_u32 : ℕ → ℕ → ℤ
compare_sequence_u32 = compare_sequence (2 ^ 31)

abbrev diff16 : ℕ → ℕ → ℕ
diff16 a b = (a + 2 ^ 16 - b) % 2 ^ 16

-- util_u16_linear_interp. `x - x0` is an `int`, and its conversion to `uint32_t` wraps.
unfoldable pub linear_interp : ℕ → ℕ → ℕ → ℕ → ℕ → ℕ
linear_interp x x0 y0 x1 y1 =
    let y_diff : ℕ = diff16 y1 y0 in
    let x_diff : ℕ = diff16 x1 x0 in
    if x_diff == 0
    then y0
    else (y0 + (x + 2 ^ 32 - x0) % 2 ^ 32 * y_diff % 2 ^ 32 / x_diff) % 2 ^ 16

-- util_v_bubble_sort_u16, on fuel for the sweeps
unfoldable pub bubble_sort : ℕ → List ℕ → Option (List ℕ)
bubble_sort fuel xs = sort_by (λ x y. ltb y x) fuel xs

-- util_u16_ewma
unfoldable pub u16_ewma : ℕ → ℕ → ℕ → ℕ
u16_ewma new old ratio =
    let temp : ℕ = (ratio * new / 256 + (256 - ratio) * old / 256) % 2 ^ 16 in
    if ltb old new && ltb temp old then old else if ltb new old && ltb old temp then old else temp

-- util_i16_ewma
unfoldable pub i16_ewma : ℕ → ℕ → ℕ → ℕ
i16_ewma new old ratio =
    let temp : ℕ =
      to_u16 (
        add32 (sdiv (mul32 ratio (extend new)) 256)
          (sdiv (mul32 (256 - ratio) (extend old)) 256)) in
    if slt (extend old) (extend new) && slt (extend temp) (extend old)
    then old
    else if slt (extend new) (extend old) && slt (extend old) (extend temp)
    then old
    else temp

-- the loop over `sum`, which wraps at `width`
unfoldable pub total : ℕ → ℕ → List ℕ → ℕ
total width sum [] = sum
total width sum (x ∷ xs) = total width ((sum + x) % width) xs

-- util_u8_average and util_u16_average, with sums of 16 and 32 bits; no data divides by zero
unfoldable pub average : ℕ → List ℕ → Option ℕ
average width [] = none
average width (x ∷ xs) = some (total width 0 (x ∷ xs) / length (x ∷ xs))

abbrev pub u8_average : List ℕ → Option ℕ
u8_average = average (2 ^ 16)

abbrev pub u16_average : List ℕ → Option ℕ
u16_average = average (2 ^ 32)
