-- ===== src/Gfx/Colors.antt =====
-- The colors that src/lib_chromatron/gfx_lib.c puts out: from hue, saturation and value to red, green,
-- blue and white, and the dimmer.
pub mod Bounds
pub mod Dimming
use Prim.Native.Nat.{zero, suc}
use chromatron.Base.{
  ℕ, ◌+◌, ◌-◌, ◌*◌, ◌/◌, ◌%◌, ◌^◌, Bool, Option, none, some, List, [], ◌∷◌, ltb, leb, ◌==◌,
  if◌then◌else◌, get_elem?, set,
}
use chromatron.Base.Bytes.{◌>>=◌}
use chromatron.Util.{linear_interp}
use chromatron.Gfx.Types.{Pixel, Output, Gfx}

-- `temp_r`, `temp_g` and `temp_b` of the hue: two neighbours on the circle share 65535.
unfoldable pub pure_color : ℕ → ℕ × ℕ × ℕ
pure_color h =
    if leb h 21845
    then (let r : ℕ = (21845 - h) * 3 in (r, 65535 - r, 0))
    else if leb h 43690
    then (let g : ℕ = (43690 - h) * 3 in (0, g, 65535 - g))
    else (let b : ℕ = (65535 - h) * 3 in (65535 - b, 0, b))

-- the product of two fractions of 65536
unfoldable pub scaled : ℕ → ℕ → ℕ
scaled a b = a * b % 2 ^ 32 / 65536

unfoldable pub at_least : ℕ → ℕ → ℕ
at_least low a = if ltb a low then low else a

unfoldable pub hsv_to_rgb : ℕ → ℕ → ℕ → ℕ × ℕ × ℕ
hsv_to_rgb h s v =
    let (r, g, b) = pure_color h in
    let floor : ℕ = 65535 - s in
    (scaled (at_least floor r) v, scaled (at_least floor g) v, scaled (at_least floor b) v)

unfoldable pub hsv_to_rgbw : ℕ → ℕ → ℕ → ℕ × ℕ × ℕ × ℕ
hsv_to_rgbw h s v =
    let (r, g, b) = pure_color h in
    (scaled (scaled r s) v, scaled (scaled g s) v, scaled (scaled b s) v, scaled (65535 - s) v)

-- The table has a value for every 256th `x`. After the last one the line goes on to 65535.
unfoldable pub linterp_table_lookup : ℕ → List ℕ → Option ℕ
linterp_table_lookup x table = do
  let index : ℕ = x / 256 % 2 ^ 8
  y0 ← get_elem? table index
  let last : Option ℕ = some (linear_interp x (index * 256) y0 65535 65535)
  let inner : Option ℕ = do
    y1 ← get_elem? table (index + 1)
    some (linear_interp x (index * 256) y0 ((index + 1) * 256) y1)
  if ltb index 255 then inner else last

unfoldable pub get_dimmed_val : ℕ → Gfx → Option ℕ
get_dimmed_val v g = linterp_table_lookup (v * g.dimmer.level % 2 ^ 32 / 65536) g.dimmer_lookup

-- PIX_MODE_SK6812_RGBW
abbrev pub mode_rgbw : ℕ
mode_rgbw = 5

-- The bytes of one pixel, in the two modes. The bits that 8 bits have no room for go to the dithering.
unfoldable pub rgbw_output : ℕ → ℕ → ℕ → Output
rgbw_output h s v =
    let (r, g, b, w) = hsv_to_rgbw h s v in
    record { red = r / 256; green = g / 256; blue = b / 256; misc = w / 256 }

unfoldable pub rgb_output : ℕ → ℕ → ℕ → Output
rgb_output h s v =
    let (r, g, b) = hsv_to_rgb h s v in
    record {
      red = r / 64 / 4 % 2 ^ 8;
      green = g / 64 / 4 % 2 ^ 8;
      blue = b / 64 / 4 % 2 ^ 8;
      misc = r / 64 % 4 * 16 + g / 64 % 4 * 4 + b / 64 % 4;
    }

unfoldable pub output : Gfx → Pixel → Option Output
output g p = do
  v ← get_dimmed_val p.val.level g
  some (
      if g.settings.pix_mode == mode_rgbw
      then rgbw_output p.hue.level p.sat.level v
      else rgb_output p.hue.level p.sat.level v)

-- The loop over the first pixels, with what the arrays held. Past their end there is no result.
unfoldable pub put_outputs : Gfx → ℕ → List Pixel → List Output → Option (List Output)
put_outputs g zero ps os = some os
put_outputs g (suc n) [] os = none
put_outputs g (suc n) (p ∷ ps) [] = none
put_outputs g (suc n) (p ∷ ps) (o ∷ os) = do
  new ← output g p
  rest ← put_outputs g n ps os
  some (new ∷ rest)

unfoldable pub sync_array : Gfx → Option Gfx
sync_array g = do
  p ← get_elem? g.pixels 0
  v ← get_dimmed_val p.val.level g
  os ← put_outputs g g.settings.pix_count g.pixels g.outputs
  some (record g { pix0 = hsv_to_rgb p.hue.level p.sat.level v; outputs = os })
