-- ===== src/Gfx/Params.antt =====
-- The parameters of src/lib_chromatron/gfx_lib.c, the master dimmer and the pixel arrays.
pub mod Checks
use Prim.Native.Nat.{zero, suc}
use chromatron.Base.{
  ℕ, ◌+◌, ◌*◌, ◌/◌, ◌%◌, ◌^◌, Bool, not, ◌&&◌, Option, none, some, List, [], ◌∷◌, ltb, leb, ◌==◌,
  if◌then◌else◌, replicate,
}
use chromatron.Base.Bytes.{◌>>=◌}
use chromatron.Word.{sub32}
use chromatron.Random.{Lfsr, fill}
use chromatron.Gfx.Fader.{Fader, new_step}
use chromatron.Gfx.Types.{Pixel, PixelArray, Settings, Gfx, max_pixels}
use chromatron.Gfx.Positions.{divisor, array_at}

-- gfx_params_t
pub record Params : Type 0 where
  pub version : ℕ
  pub settings : Settings

abbrev pub gfx_version : ℕ
gfx_version = 1

-- The limits of the number of pixels, of the sizes and of the frame rate, in the source's order.
unfoldable pub checked_count : ℕ → ℕ
checked_count n = if ltb max_pixels n then max_pixels else if n == 0 then 1 else n

unfoldable pub checked_size : ℕ → ℕ → ℕ
checked_size count size =
    let limited : ℕ = if ltb count size then 1 else size in
    if ltb 0 count && limited == 0 then 1 else limited

unfoldable pub param_error_check : Settings → Settings
param_error_check s =
    let count : ℕ = checked_count s.pix_count in
    let over : Bool = ltb count (s.pix_size_x * s.pix_size_y % 2 ^ 32) in
    record s {
      pix_count = count;
      pix_size_x = checked_size count (if over then count else s.pix_size_x);
      pix_size_y = checked_size count (if over then 1 else s.pix_size_y);
      frame_rate = if ltb s.frame_rate 10 then 10 else s.frame_rate;
    }

unfoldable pub update_master_fader : Gfx → Gfx
update_master_fader g =
    let target : ℕ = g.settings.master_dimmer * g.settings.sub_dimmer % 2 ^ 32 / 65536 % 2 ^ 16 in
    record g {
      dimmer = record g.dimmer {
        target = target;
        step = new_step g.settings.v_fade (sub32 target g.dimmer.level);
      };
    }

-- The first array is all pixels. Without arrays there is nothing to do, and an empty list of them has no
-- first one.
unfoldable pub master_array : Settings → PixelArray → PixelArray
master_array s a = record a {
  index = 0;
  count = s.pix_count;
  size_x = s.pix_size_x;
  size_y = s.pix_size_y;
}

unfoldable pub with_master : Settings → List PixelArray → Option (List PixelArray)
with_master s [] = none
with_master s (a ∷ rest) = some (master_array s a ∷ rest)

unfoldable pub setup_master : Option (List PixelArray) → Gfx → Option Gfx
setup_master none g = some g
setup_master (some arrays) g = do
  changed ← with_master g.settings arrays
  some (record g { pix_arrays = some changed })

unfoldable pub setup_master_array : Gfx → Option Gfx
setup_master_array g = setup_master g.pix_arrays g

unfoldable pub init_pixel_arrays : List PixelArray → ℕ → Gfx → Option Gfx
init_pixel_arrays arrays count g =
    setup_master_array (record g { pix_arrays = some arrays; pix_array_count = count })

-- `dimmer_curve` and `pix_mode` are bytes.
unfoldable pub stored : Settings → Settings
stored s = record s { dimmer_curve = s.dimmer_curve % 2 ^ 8; pix_mode = s.pix_mode % 2 ^ 8 }

-- The numbers of the virtual array, from the settings.
unfoldable pub virtual_numbers : Gfx → Option Gfx
virtual_numbers g = do
  count ← divisor g.settings.pix_count
  some (record g {
    virtual_array_sub_position = g.settings.virtual_array_start / count % 2 ^ 8;
    scaled_pix_count = count * 65536 % 2 ^ 32;
    scaled_virtual_array_length = g.settings.virtual_array_length * 65536 % 2 ^ 32;
  })

-- gfx_v_reset
unfoldable pub blank_pixel : Settings → Pixel
blank_pixel s = record {
  hue = record { level = 0; target = 0; step = 0 };
  sat = record { level = 65535; target = 65535; step = 0 };
  val = record { level = 0; target = 0; step = 0 };
  hs_fade = s.hs_fade;
  v_fade = s.v_fade;
}

-- gfx_v_init_noise fills the table with bytes of the random number generator.
unfoldable pub init_noise : Lfsr → Gfx → Gfx × Lfsr
init_noise r g = let (bytes, r') = fill 256 r in (record g { noise_table = bytes }, r')

unfoldable pub reset : Lfsr → Gfx → Gfx × Lfsr
reset r g =
    init_noise r
      (record g { pixels = replicate max_pixels (blank_pixel g.settings); pix_array_count = 0 })

-- `compute_dimmer_lookup` raises a `float` to a power, with the C library's `pow`: `curve_table` is the
-- table that it gives for a dimmer curve.
module _ (curve_table : ℕ → List ℕ) where
  unfoldable pub compute_dimmer_lookup : Gfx → Gfx
  compute_dimmer_lookup g = record g { dimmer_lookup = curve_table g.settings.dimmer_curve }

  -- gfx_v_set_params less `sync_db`
  unfoldable pub set_params : Params → Gfx → Option Gfx
  set_params p g = if not (p.version == gfx_version) then some g else do
    h ← setup_master_array (record g { settings = param_error_check (stored p.settings) })
    let same : Bool = g.settings.dimmer_curve == h.settings.dimmer_curve
    let k : Gfx = if same then h else compute_dimmer_lookup h
    virtual_numbers (update_master_fader k)

  -- gfxlib_v_init
  unfoldable pub init : Lfsr → Gfx → Gfx × Lfsr
  init r g =
      let checked : Gfx = record g { settings = param_error_check g.settings } in
      let (h, r') = reset r (compute_dimmer_lookup checked) in (update_master_fader h, r')

unfoldable pub get_params : Gfx → Params
get_params g = record { version = gfx_version; settings = g.settings }

unfoldable pub set_master_dimmer : ℕ → Gfx → Gfx
set_master_dimmer setting g =
    update_master_fader (record g { settings = record g.settings { master_dimmer = setting } })

unfoldable pub set_submaster_dimmer : ℕ → Gfx → Gfx
set_submaster_dimmer setting g =
    update_master_fader (record g { settings = record g.settings { sub_dimmer = setting } })

-- gfx_i32_get_obj_attr. The number of the array is not checked.
unfoldable pub array_attr : ℕ → ℕ → PixelArray → Gfx → ℕ
array_attr attr addr a g =
    if attr == 8
    then a.index
    else if attr == 5
    then (if addr == 0 && ltb 0 g.settings.virtual_array_length
        then g.settings.virtual_array_length
        else a.count)
    else if attr == 6
    then a.size_x
    else if attr == 7
    then a.size_y
    else 0

unfoldable pub get_obj_attr : ℕ → ℕ → ℕ → Gfx → Option ℕ
get_obj_attr obj attr addr g =
    if obj == 1 && leb 5 attr && leb attr 8
    then (do a ← array_at addr g; some (array_attr attr addr a g))
    else some 0

-- The setters of single settings, which check nothing.
abbrev with_settings : (Settings → Settings) → Gfx → Gfx
with_settings f g = record g { settings = f g.settings }

abbrev pub set_pix_count : ℕ → Gfx → Gfx
set_pix_count setting g = with_settings (λ s. record s { pix_count = setting }) g

abbrev pub set_size_x : ℕ → Gfx → Gfx
set_size_x size g = with_settings (λ s. record s { pix_size_x = size }) g

abbrev pub set_size_y : ℕ → Gfx → Gfx
set_size_y size g = with_settings (λ s. record s { pix_size_y = size }) g

abbrev pub set_interleave_x : Bool → Gfx → Gfx
set_interleave_x setting g = with_settings (λ s. record s { interleave_x = setting }) g

abbrev pub set_transpose : Bool → Gfx → Gfx
set_transpose setting g = with_settings (λ s. record s { transpose = setting }) g

abbrev pub set_hsfade : ℕ → Gfx → Gfx
set_hsfade setting g = with_settings (λ s. record s { hs_fade = setting }) g

abbrev pub set_vfade : ℕ → Gfx → Gfx
set_vfade setting g = with_settings (λ s. record s { v_fade = setting }) g
