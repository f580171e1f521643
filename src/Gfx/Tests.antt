-- ===== src/Gfx/Tests.antt =====
-- Tests of the graphics library, and its theorems at concrete inputs.
mod States
use chromatron.Gfx.Tests.States.{
  matrix, master, tail, demo, demo-IsProper, second_array, corner, demo-IsMaster, demo-HasRoom,
}
use chromatron.Base.{
  ℕ, ◌+◌, ◌-◌, ◌*◌, ◌/◌, ◌%◌, ◌≤◌, ◌<◌, ◌≡◌, ◌≢◌, refl, true, false, [], ◌∷◌, none, some, get_elem?,
  replicate, arith,
}
use chromatron.Random.{seed}
use chromatron.Word.{to_u16, add32, sub32, neg32, slt, sdiv, smod, magnitude}
use chromatron.Util.{extend, abs16}
use chromatron.Vm.Types.{Attr, sat, add}
use chromatron.Gfx.Types.{Pixel, PixelArray, Settings, Gfx, max_pixels}
use chromatron.Gfx.Fader.{
  fade_steps, move, retarget, shortest, new_step, limited, distance, fade_hue,
}
use chromatron.Gfx.Fader.Fades.{IsAtTarget}
use chromatron.Gfx.Frames.{run_frames}
use chromatron.Gfx.Frames.Fading.{IsPixel, IsThere, run_frames-Settles}
use chromatron.Gfx.Positions.{
  calc_index, array_at, offset, virtual_offset, divisor, reversed, index_of, interleaved,
}
use chromatron.Gfx.Positions.Layout.{IsArray}
use chromatron.Gfx.Positions.Matrix.{IsMaster, calc_index-injective}
use chromatron.Gfx.Setters.{set_attr, get_attr, set_hsv}
use chromatron.Gfx.Setters.Kept.{get_attr-set_attr}
use chromatron.Gfx.Arrays.{array_op, get_is_fading, any_fading, round_index, is_at_target}
use chromatron.Gfx.Arrays.Loops.{pixel_of, array_op-IsProper}
use chromatron.Gfx.Colors.{hsv_to_rgb, hsv_to_rgbw, get_dimmed_val}
use chromatron.Gfx.Colors.Bounds.{hsv_to_rgb-bounds, hsv_to_rgbw-bounds}
use chromatron.Gfx.Colors.Dimming.{point_end, get_dimmed_val-Between}
use chromatron.Gfx.Params.{Params, blank_pixel, stored, set_master_dimmer, init}
use chromatron.Gfx.Proper.{IsProper, IsProper-IsFading, HasFirst, HasWidths}
use chromatron.Gfx.Starts.{HasRoom, length-replicate, All-replicate, blank-IsPixel}
use chromatron.Gfx.Steps.{begin, call, dimmed, colored, Reach-Settles}

get_attr-set_attr_example :
    (g' : Gfx) × (set_attr sat 7 0 1 0 demo ≡ some g')
    × (get_attr sat 0 1 0 g' ≡ some 7)
    × ((other : Attr) → sat ≢ other → get_attr other 0 1 0 g' ≡ get_attr other 0 1 0 demo)
    × ((other : Attr) (x' y' obj' index' : ℕ)
        → calc_index obj' x' y' demo ≡ some index'
        → index' % max_pixels ≢ 5
        → get_attr other x' y' obj' g' ≡ get_attr other x' y' obj' demo)
get_attr-set_attr_example =
    get_attr-set_attr sat 7 0 1 0 5 demo (length-replicate max_pixels (blank_pixel matrix)) corner
      (omega arith)

abbrev one : ℕ
one = 1

calc_index-injective_example : (one ≡ one) × (one ≡ one)
calc_index-injective_example =
    calc_index-injective demo master 1 1 1 1 demo-IsMaster (omega arith) (omega arith) (omega arith)
      (omega arith) refl

array_op-IsProper_example :
    (g' : Gfx) × (array_op add 1 2 100 demo ≡ some g')
    × IsProper g'
    × (g'.settings ≡ demo.settings)
    × ((k : ℕ)
        → ((j : ℕ) → j < tail.count → pixel_of tail j demo.settings.pix_count ≢ k)
        → get_elem? g'.pixels k ≡ get_elem? demo.pixels k)
array_op-IsProper_example = array_op-IsProper add 1 2 100 tail demo demo-IsProper tt second_array

hsv_to_rgbw-bounds_example :
    (let (r, g, b, w) = hsv_to_rgbw 30000 40000 50000 in r + g + b + w ≤ 50000)
hsv_to_rgbw-bounds_example =
    hsv_to_rgbw-bounds 30000 40000 50000 (omega arith) (omega arith) (omega arith)

get_dimmed_val-Between_example :
    (let x : ℕ = 400 * demo.dimmer.level / 65536 in
      (y : ℕ) × (get_dimmed_val 400 demo ≡ some y)
      × (y ≡ 100 + (x - x / 256 * 256) * (300 - 100) / (point_end (x / 256) - x / 256 * 256))
      × (100 ≤ y)
      × (y ≤ 300))
get_dimmed_val-Between_example =
    get_dimmed_val-Between 400 100 300 demo (omega arith) (omega arith) refl refl (omega arith)
      (omega arith)

Reach-Settles_example :
    let h : Gfx = set_master_dimmer 30000 (set_hsv 1 2 3 4 (init (λ c. []) (seed 1) demo).0) in
    IsProper h
    × ((n : ℕ)
        → 65538 ≤ n
        → (h' : Gfx) × (run_frames n h ≡ some h')
          × ((i : ℕ) (p : Pixel)
              → i < h.settings.pix_count
              → get_elem? h.pixels i ≡ some p
              → (q : Pixel) × (get_elem? h'.pixels i ≡ some q) × IsThere p q))
Reach-Settles_example =
    Reach-Settles (λ c. []) (seed 1) demo _ demo-HasRoom
      (call (call begin (colored 1 2 3 4)) (dimmed 30000))

-- The array of the last two pixels counts as settled while the first of them, pixel 4, fades.
abbrev late : Gfx
late = record demo {
  pixels =
      blank_pixel matrix
      ∷ blank_pixel matrix
      ∷ blank_pixel matrix
      ∷ blank_pixel matrix
      ∷ record (blank_pixel matrix) { val = record { level = 0; target = 9; step = 0 } }
      ∷ blank_pixel matrix
      ∷ [];
}

fading_missed : get_is_fading 65535 65535 1 late ≡ some false
unfolding get_is_fading array_at any_fading round_index divisor is_at_target blank_pixel
fading_missed = refl

-- Numbers alone are turned round like the columns of an odd row: 0 and 4 are one pixel of six.
numbers_collide : (calc_index 0 0 65535 demo ≡ some 2) × (calc_index 0 4 65535 demo ≡ some 2)
unfolding calc_index array_at interleaved offset divisor reversed index_of extend to_u16 add32 smod
    magnitude
numbers_collide = (refl, refl)

-- A virtual array that is short divides by 0.
virtual_by_zero :
    calc_index 1 0 65535 (record demo {
      settings = record matrix { virtual_array_length = 1 };
      scaled_virtual_array_length = 65536;
    })
    ≡ none
unfolding calc_index array_at interleaved offset virtual_offset divisor to_u16
virtual_by_zero = refl

-- A hue that reaches the end of the circle before its target goes past the target, to 5.
hue_passes :
    fade_hue 20 (fade_hue 20 (fade_hue 20 (record { level = 65523; target = 0; step = 0 })))
    ≡ record { level = 5; target = 0; step = 6 }
unfolding fade_hue retarget move new_step limited fade_steps shortest distance to_u16 sub32 neg32
    magnitude add32 slt sdiv abs16
hue_passes = refl

-- A dimmer curve of 256 is stored as 0.
curve_cut : (stored (record matrix { dimmer_curve = 256 })).dimmer_curve ≡ 0
unfolding stored
curve_cut = refl
