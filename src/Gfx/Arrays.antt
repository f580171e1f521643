-- ===== src/Gfx/Arrays.antt =====
-- The operations of src/lib_chromatron/gfx_lib.c on all pixels of an array.
pub mod Loops
pub mod Moves
use Prim.Native.Nat.{zero, suc}
use chromatron.Base.{
  ℕ, ◌+◌, ◌%◌, ◌^◌, Bool, true, false, not, ◌&&◌, Option, none, some, leb, ltb, ◌==◌, if◌then◌else◌,
  get_elem?,
}
use chromatron.Base.Bytes.{◌>>=◌}
use chromatron.Vm.Types.{
  Attr, hue, sat, val, hs_fade, v_fade, ArrayOp, add, sub, mul, div, mod_op, mov,
}
use chromatron.Vm.Opcodes.{cell_op, pixel_value}
use chromatron.Gfx.Types.{Pixel, PixelArray, Gfx, max_pixels}
use chromatron.Gfx.Positions.{divisor, array_at, calc_index}
use chromatron.Gfx.Setters.{set_1d, read_attr}

-- The attribute of a number, PIX_ATTR_HUE to PIX_ATTR_V_FADE: all others count as the value.
unfoldable pub attr_of : ℕ → Attr
attr_of a =
    if a == 0
    then hue
    else if a == 1
    then sat
    else if a == 3
    then hs_fade
    else if a == 4
    then v_fade
    else val

-- the pixel of round `i`
unfoldable pub round_index : PixelArray → ℕ → Gfx → Option ℕ
round_index a i g = do count ← divisor g.settings.pix_count; some ((i + a.index) % 2 ^ 16 % count)

-- the value before the operation, which gfx_v_array_move does not read
unfoldable pub old_value : ArrayOp → Attr → ℕ → Gfx → Option ℕ
old_value mov attr index g = some 0
old_value op attr index g = do p ← get_elem? g.pixels index; some (read_attr attr p)

unfoldable pub array_round : ArrayOp → Attr → ℕ → PixelArray → ℕ → Gfx → Option Gfx
array_round op attr src a i g = do
  index ← round_index a i g
  old ← old_value op attr index g
  new ← cell_op op old src
  some (set_1d attr (pixel_value attr new) index g)

-- the loop, for the rounds left
unfoldable pub each_round : ArrayOp → Attr → ℕ → PixelArray → ℕ → ℕ → Gfx → Option Gfx
each_round op attr src a zero i g = some g
each_round op attr src a (suc n) i g = do
  h ← array_round op attr src a i g
  each_round op attr src a n (i + 1) h

unfoldable pub array_op : ArrayOp → ℕ → ℕ → ℕ → Gfx → Option Gfx
array_op op obj attr src g =
    if leb g.pix_array_count obj
    then some g
    else do a ← array_at obj g; each_round op (attr_of attr) src a a.count 0 g

abbrev pub array_move : ℕ → ℕ → ℕ → Gfx → Option Gfx
array_move = array_op mov

abbrev pub array_add : ℕ → ℕ → ℕ → Gfx → Option Gfx
array_add = array_op add

abbrev pub array_sub : ℕ → ℕ → ℕ → Gfx → Option Gfx
array_sub = array_op sub

abbrev pub array_mul : ℕ → ℕ → ℕ → Gfx → Option Gfx
array_mul = array_op mul

abbrev pub array_div : ℕ → ℕ → ℕ → Gfx → Option Gfx
array_div = array_op div

abbrev pub array_mod : ℕ → ℕ → ℕ → Gfx → Option Gfx
array_mod = array_op mod_op

unfoldable pub is_at_target : Pixel → Bool
is_at_target p =
    p.hue.target == p.hue.level && p.sat.target == p.sat.level && p.val.target == p.val.level

-- The loop of gfx_u16_get_is_fading. It computes the pixel of each round, and then looks at pixel `i`.
unfoldable pub any_fading : PixelArray → ℕ → ℕ → Gfx → Option Bool
any_fading a zero i g = some false
any_fading a (suc n) i g = do
  index ← round_index a i g
  p ← get_elem? g.pixels i
  let rest : Option Bool = any_fading a n (i + 1) g
  if is_at_target p then rest else some true

unfoldable pub get_is_fading : ℕ → ℕ → ℕ → Gfx → Option Bool
get_is_fading x y obj g =
    if x == 65535 && y == 65535 then (do a ← array_at obj g; any_fading a a.count 0 g) else (do
      i ← calc_index obj x y g
      let at_one : Option Bool = do p ← get_elem? g.pixels i; some (not (is_at_target p))
      if leb max_pixels i then some true else at_one)
