-- ===== src/Gfx/Setters.antt =====
-- The setters and getters of src/lib_chromatron/gfx_lib.c for one pixel.
pub mod Kept
use Prim.Native.Nat.{zero, suc}
use chromatron.Base.{ℕ, ◌+◌, ◌%◌, Option, none, some, List, [], ◌∷◌, leb, if◌then◌else◌, get_elem?}
use chromatron.Base.Bytes.{◌>>=◌}
use chromatron.Word.{is_neg, to_u16}
use chromatron.Vm.Types.{Attr, hue, sat, val, hs_fade, v_fade}
use chromatron.Gfx.Fader.{Fader}
use chromatron.Gfx.Types.{Pixel, Gfx, max_pixels}
use chromatron.Gfx.Positions.{calc_index}

abbrev pub change_at {ℓ} : {A : Type ℓ} → (A → A) → ℕ → List A → List A
change_at f i [] = []
change_at f zero (x ∷ xs) = f x ∷ xs
change_at f (suc i) (x ∷ xs) = x ∷ change_at f i xs

-- The step of a fader is reset, so that the next frame computes it again.
unfoldable pub restart : Fader → Fader
restart f = record f { step = 0 }

-- What a setter does to a pixel.
unfoldable pub assign : Attr → ℕ → Pixel → Pixel
assign hue v p = record p { hue = record p.hue { target = v; step = 0 } }
assign sat v p = record p { sat = record p.sat { target = v; step = 0 } }
assign val v p = record p { val = record p.val { target = v; step = 0 } }
assign hs_fade v p = record p { hs_fade = v; hue = restart p.hue; sat = restart p.sat }
assign v_fade v p = record p { v_fade = v; val = restart p.val }

-- `_gfx_v_set_hue_1d` and its like
unfoldable pub set_1d : Attr → ℕ → ℕ → Gfx → Gfx
set_1d attr v index g =
    if leb max_pixels index
    then g
    else record g { pixels = change_at (assign attr v) index g.pixels }

-- gfx_v_set_hue and its like
unfoldable pub set_attr : Attr → ℕ → ℕ → ℕ → ℕ → Gfx → Option Gfx
set_attr attr v x y obj g = do
  index ← calc_index obj x y g
  some (if leb max_pixels index then g else set_1d attr v index g)

unfoldable pub read_attr : Attr → Pixel → ℕ
read_attr hue p = p.hue.target
read_attr sat p = p.sat.target
read_attr val p = p.val.target
read_attr hs_fade p = p.hs_fade
read_attr v_fade p = p.v_fade

-- gfx_u16_get_hue and its like
unfoldable pub get_attr : Attr → ℕ → ℕ → ℕ → Gfx → Option ℕ
get_attr attr x y obj g = do
  index ← calc_index obj x y g
  p ← get_elem? g.pixels (index % max_pixels)
  some (read_attr attr p)

-- gfx_v_set_hsv: a negative value leaves the attribute as it is
unfoldable pub set_unless_neg : Attr → ℕ → ℕ → Gfx → Gfx
set_unless_neg attr v index g = if is_neg v then g else set_1d attr (to_u16 v) index g

unfoldable pub set_hsv : ℕ → ℕ → ℕ → ℕ → Gfx → Gfx
set_hsv h s v index g =
    set_unless_neg val v index (set_unless_neg sat s index (set_unless_neg hue h index g))

unfoldable pub set_hsv_2d : ℕ → ℕ → ℕ → ℕ → ℕ → Gfx → Option Gfx
set_hsv_2d h s v x y g = do
  index ← calc_index 0 x y g
  some (if leb max_pixels index then g else set_hsv h s v index g)

-- the loop over the rounds left, from `i` on
unfoldable pub set_hsv_from : ℕ → ℕ → ℕ → ℕ → ℕ → Gfx → Gfx
set_hsv_from h s v zero i g = g
set_hsv_from h s v (suc n) i g = set_hsv_from h s v n (i + 1) (set_hsv h s v i g)

unfoldable pub set_background_hsv : ℕ → ℕ → ℕ → Gfx → Gfx
set_background_hsv h s v g = set_hsv_from h s v max_pixels 0 g

abbrev minus_one : ℕ
minus_one = 4294967295

unfoldable pub clear : Gfx → Gfx
clear g = set_hsv_from minus_one minus_one 0 g.settings.pix_count 0 g
