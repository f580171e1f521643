-- ===== src/Gfx/Positions.antt =====
-- calc_index of src/lib_chromatron/gfx_lib.c: the pixel that a position in an array stands for. The
-- variable `i` is an `int16_t`, its bit pattern here. `none` is a division by 0 or an array that does not exist.
use Prim.Native.Nat.{zero, suc}
pub mod Layout
pub mod Matrix
use chromatron.Base.{
  ℕ, ◌+◌, ◌-◌, ◌*◌, ◌/◌, ◌%◌, ◌^◌, Bool, not, ◌&&◌, ◌||◌, Option, none, some, List, ltb, leb, ◌==◌,
  if◌then◌else◌, get_elem?,
}
use chromatron.Base.Bytes.{◌>>=◌}
use chromatron.Word.{add32, sub32, mul32, slt, smod, to_u16}
use chromatron.Util.{extend}
use chromatron.Gfx.Types.{PixelArray, Gfx}

-- the value that stands for no pixel
abbrev pub nowhere : ℕ
nowhere = 65535

-- An offset in an array, or a position outside of it.
pub data Spot : Type 0 where
  outside : Spot
  within : ℕ → Spot

-- a divisor that is not 0
unfoldable pub divisor : ℕ → Option ℕ
divisor n = if n == 0 then none else some n

unfoldable pub array_at : ℕ → Gfx → Option PixelArray
array_at obj g = do arrays ← g.pix_arrays; get_elem? arrays obj

-- Where the position is in a virtual array, of which this device has a part: `outside` where that
-- part does not have it.
unfoldable pub virtual_offset : PixelArray → ℕ → Gfx → Option Spot
virtual_offset a x g = do
  count ← divisor a.count
  sub_len ← divisor (g.scaled_pix_count / count)
  len ← divisor (to_u16 (g.scaled_virtual_array_length / sub_len))
  let sub_array_offset : ℕ =
      to_u16 (mul32 (sub32 g.settings.pix_count a.count) g.virtual_array_sub_position)
  let start : ℕ = (g.settings.virtual_array_start + 2 ^ 16 - sub_array_offset) % 2 ^ 16
  let i : ℕ = extend (x % len)
  some (
      if slt i start || not (slt i (start + a.count))
      then outside
      else within (to_u16 (smod (extend (to_u16 (sub32 i start))) count)))

-- The offset in the array: `y` is 65535 for a position in one dimension.
unfoldable pub offset : PixelArray → ℕ → ℕ → Gfx → Option Spot
offset a x y g =
    if y == 65535
    then (if ltb 0 g.settings.virtual_array_length
        then virtual_offset a x g
        else do count ← divisor a.count; some (within (x % count)))
    else do
      size_x ← divisor a.size_x
      size_y ← divisor a.size_y
      some (within (to_u16 (x % size_x + y % size_y * size_x)))

-- The offset from the end of a reversed array.
unfoldable pub reversed : PixelArray → Spot → Spot
reversed a outside = outside
reversed a (within i) =
    let j : ℕ = to_u16 (sub32 (sub32 a.count 1) (extend i)) in
    if not a.reverse then within i else if leb (2 ^ 15) j then outside else within j

-- The pixel of an offset, among all of them.
unfoldable pub index_of : PixelArray → ℕ → Spot → Option ℕ
index_of a pix_count outside = some nowhere
index_of a pix_count (within i) = do
  count ← divisor pix_count
  some (to_u16 (smod (add32 (extend i) a.index) count))

-- the way of an odd row, where rows are interleaved
unfoldable pub interleaved : PixelArray → ℕ → ℕ → Gfx → ℕ
interleaved a x y g =
    if g.settings.interleave_x && y % 2 == 1 then (a.size_x + 2 ^ 17 - 1 - x) % 2 ^ 16 else x

unfoldable pub calc_index : ℕ → ℕ → ℕ → Gfx → Option ℕ
calc_index obj x y g = if leb g.pix_array_count obj then some nowhere else do
  a ← array_at obj g
  let x1 : ℕ = if g.settings.transpose then y else x
  let y1 : ℕ = if g.settings.transpose then x else y
  place ← offset a (interleaved a x1 y1 g) y1 g
  index_of a g.settings.pix_count (reversed a place)
