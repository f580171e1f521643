-- ===== src/Gfx/Positions/Layout.antt =====
-- calc_index of gfx_lib.c against the layout of a matrix: rows one after the other.
use chromatron.Base.{
  ℕ, ◌+◌, ◌-◌, ◌*◌, ◌%◌, ◌^◌, ◌≤◌, ◌<◌, ◌≡◌, refl, ap, Bool, true, false, not, some, ltb, leb, ◌==◌,
  if◌then◌else◌, arith, ℕ_discrete, ◌&&◌,
}
use native.Mathlib.Nat.{mod-lt, mul-le-mul_right, mul-le-mul_left}
use chromatron.Word.{add32, sub32, smod, magnitude, neg32, to_u16}
use chromatron.Util.{extend}
use chromatron.Gfx.Types.{PixelArray, Gfx, max_pixels}
use chromatron.Gfx.Positions.{
  within, divisor, array_at, offset, reversed, index_of, interleaved, calc_index,
}

-- An array whose matrix fits in it.
pub record IsArray (a : PixelArray) : Type 0 where
  pub start : a.index < 2 ^ 16
  pub some_pixels : 0 < a.count
  pub small : a.count < 2 ^ 15
  pub wide : 0 < a.size_x
  pub high : 0 < a.size_y
  pub area : a.size_x * a.size_y ≤ a.count

-- The offset of a column and a row, or of a number alone, and the offset from the end.
abbrev pub cell : PixelArray → ℕ → ℕ → ℕ
cell a x y = if y == 65535 then x % a.count else x % a.size_x + y % a.size_y * a.size_x

abbrev pub from_end : PixelArray → ℕ → ℕ
from_end a i = if a.reverse then a.count - 1 - i else i

turned : (b : Bool) (i j : ℕ) → (if not b then within i else within j) ≡ within (if b then j else i)
turned true i j = refl
turned false i j = refl

reversed_lem :
    (a : PixelArray) (i : ℕ)
    → IsArray a
    → i < a.count
    → reversed a (within i) ≡ within (from_end a i)
unfolding reversed extend sub32 to_u16
reversed_lem a i h lt =
    let j : (((a.count + 2 ^ 32 - 1) % 2 ^ 32 + 2 ^ 32 - i) % 2 ^ 32) % 2 ^ 16 ≡ a.count - 1 - i =
      omega (arith, h.small) in
    let low : ltb i (2 ^ 15) ≡ true = ground (arith, h.small) in
    let in_range : leb (2 ^ 15) (a.count - 1 - i) ≡ false = ground (arith, h.small) in
    rw (low, j, in_range) (turned a.reverse i (a.count - 1 - i))

pixel_lem :
    (i start count : ℕ)
    → i < 2 ^ 15
    → start < 2 ^ 16
    → 0 < count
    → count ≤ max_pixels
    → to_u16 (smod (add32 (extend i) start) count) ≡ (i + start) % count
unfolding extend add32 smod magnitude to_u16 neg32
pixel_lem i start count hi hs pos most =
    let low : ltb i (2 ^ 15) ≡ true = ground arith in
    let whole : (i + start) % 2 ^ 32 ≡ i + start = omega arith in
    let up : leb (2 ^ 31) (i + start) ≡ false = ground arith in
    let few : leb (2 ^ 31) count ≡ false = ground arith in
    let small : (i + start) % count < count = mod-lt (i + start) pos in
    rw (low, whole, up, few) (omega (arith, small))

pub matrix_lem :
    (a : PixelArray) (x y : ℕ) → IsArray a → x % a.size_x + y % a.size_y * a.size_x < a.count
matrix_lem a x y h =
    let next : y % a.size_y + 1 ≤ a.size_y = omega (arith, mod-lt y h.high) in
    let row : (y % a.size_y + 1) * a.size_x ≤ a.size_y * a.size_x =
      mul-le-mul_right a.size_x next in
    omega (arith, row, mod-lt x h.wide, h.area)

pub cell_lem : (a : PixelArray) (x y : ℕ) → IsArray a → cell a x y < a.count
cell_lem a x y h = elim (ℕ_discrete y 65535) [
  | yes e ↦ let one : (y == 65535) ≡ true = ground arith in rw one (mod-lt x h.some_pixels)
  | no ne ↦ let two : (y == 65535) ≡ false = ground arith in rw two (matrix_lem a x y h)
]

pub from_end_lem : (a : PixelArray) (i : ℕ) → i < a.count → from_end a i < a.count
from_end_lem a i h = ground arith

offset_lem :
    (a : PixelArray) (x y : ℕ) (g : Gfx)
    → IsArray a
    → g.settings.virtual_array_length ≡ 0
    → offset a x y g ≡ some (within (cell a x y))
unfolding offset divisor to_u16
offset_lem a x y g h v =
    let off : ltb 0 g.settings.virtual_array_length ≡ false = ground arith in
    let c : (a.count == 0) ≡ false = ground (arith, h.some_pixels) in
    let w : (a.size_x == 0) ≡ false = ground (arith, h.wide) in
    let t : (a.size_y == 0) ≡ false = ground (arith, h.high) in
    elim (ℕ_discrete y 65535) [
      | yes e ↦ let one : (y == 65535) ≡ true = ground arith in rw (one, off, c) refl
      | no ne ↦
          let two : (y == 65535) ≡ false = ground arith in
          let i : ℕ = x % a.size_x + y % a.size_y * a.size_x in
          let whole : i % 2 ^ 16 ≡ i = omega (arith, matrix_lem a x y h, h.small) in
          rw (two, w, t, whole) refl
    ]

-- The column and the row of a position: transposed, and an odd row the other way round.
abbrev pub row_of : ℕ → ℕ → Gfx → ℕ
row_of x y g = if g.settings.transpose then x else y

abbrev pub column_of : PixelArray → ℕ → ℕ → Gfx → ℕ
column_of a x y g = interleaved a (if g.settings.transpose then y else x) (row_of x y g) g

-- calc_index with the column that the code takes, which turns numbers alone round too.
pub calc_index_lem :
    (obj x y : ℕ) (a : PixelArray) (g : Gfx)
    → obj < g.pix_array_count
    → array_at obj g ≡ some a
    → IsArray a
    → g.settings.virtual_array_length ≡ 0
    → 0 < g.settings.pix_count
    → g.settings.pix_count ≤ max_pixels
    → (calc_index obj x y g
        ≡ some (
            (from_end a (cell a (column_of a x y g) (row_of x y g)) + a.index)
            % g.settings.pix_count))
      × ((from_end a (cell a (column_of a x y g) (row_of x y g)) + a.index) % g.settings.pix_count
          < g.settings.pix_count)
unfolding calc_index index_of divisor
calc_index_lem obj x y a g known at h v pos most =
    let i : ℕ = cell a (column_of a x y g) (row_of x y g) in
    let inside : i < a.count = cell_lem a (column_of a x y g) (row_of x y g) h in
    let end : from_end a i < a.count = from_end_lem a i inside in
    let on : leb g.pix_array_count obj ≡ false = ground arith in
    let some_count : (g.settings.pix_count == 0) ≡ false = ground arith in
    (
      rw
          (
            on,
            at,
            offset_lem a (column_of a x y g) (row_of x y g) g h v,
            reversed_lem a i h inside,
            some_count,
          )
          (ap some (
            pixel_lem (from_end a i) a.index g.settings.pix_count (omega (arith, h.small)) h.start
              pos most)),
      mod-lt _ pos,
    )

pub sizes_lem : (a : PixelArray) → IsArray a → (a.size_x ≤ a.count) × (a.size_y ≤ a.count)
sizes_lem a h =
    let wide : a.size_x * 1 ≤ a.size_x * a.size_y = mul-le-mul_left a.size_x h.high in
    let high : 1 * a.size_y ≤ a.size_x * a.size_y = mul-le-mul_right a.size_y h.wide in
    (omega (arith, wide, h.area), omega (arith, high, h.area))

-- A column counted from the end of a row of `w` pixels, round the numbers of 16 bits where it is not in the row.
abbrev pub from_right : ℕ → ℕ → ℕ
from_right w x = if ltb x w then w - 1 - x else 2 ^ 16 + w - 1 - x

-- The place of a column and row in the matrix of an array, in which one row follows the other and, where
-- `folds` holds, odd rows run back. The row 65535 stands for a number alone.
abbrev pub matrix_place : PixelArray → Bool → ℕ → ℕ → ℕ
matrix_place a folds x y =
    if y == 65535
    then x % a.count
    else (if folds && y % 2 == 1 then from_right a.size_x x else x) % a.size_x
      + y % a.size_y * a.size_x

abbrev pub place_of : PixelArray → ℕ → ℕ → Gfx → ℕ
place_of a x y g =
    if g.settings.transpose
    then matrix_place a g.settings.interleave_x y x
    else matrix_place a g.settings.interleave_x x y
