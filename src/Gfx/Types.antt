-- ===== src/Gfx/Types.antt =====
-- The state of src/lib_chromatron/gfx_lib.c and the constants and types of gfx_lib.h.
use chromatron.Base.{ℕ, Bool, Option, List}
use chromatron.Gfx.Fader.{Fader}

abbrev pub max_pixels : ℕ
max_pixels = 320

-- What the arrays of the module hold for one pixel, `hue[i]`, `sat[i]` and so on.
pub record Pixel : Type 0 where
  pub hue : Fader
  pub sat : Fader
  pub val : Fader
  pub hs_fade : ℕ
  pub v_fade : ℕ

-- gfx_pixel_array_t
pub record PixelArray : Type 0 where
  pub index : ℕ
  pub count : ℕ
  pub size_x : ℕ
  pub size_y : ℕ
  pub reverse : Bool

-- The variables that `gfx_params_t` sets.
pub record Settings : Type 0 where
  pub pix_count : ℕ
  pub pix_size_x : ℕ
  pub pix_size_y : ℕ
  pub pix_mode : ℕ
  pub interleave_x : Bool
  pub transpose : Bool
  pub hs_fade : ℕ
  pub v_fade : ℕ
  pub master_dimmer : ℕ
  pub sub_dimmer : ℕ
  pub frame_rate : ℕ
  pub dimmer_curve : ℕ
  pub virtual_array_start : ℕ
  pub virtual_array_length : ℕ

-- `array_red[i]`, `array_green[i]`, `array_blue[i]` and `array_misc[i]`
pub record Output : Type 0 where
  pub red : ℕ
  pub green : ℕ
  pub blue : ℕ
  pub misc : ℕ

-- The module's variables. `pix_arrays` points into the data of the program that runs: here the arrays
-- are a list, and a null pointer is `none`.
pub record Gfx : Type 0 where
  pub settings : Settings
  pub pixels : List Pixel
  pub outputs : List Output
  pub pix0 : ℕ × ℕ × ℕ
  pub dimmer : Fader
  pub dimmer_lookup : List ℕ
  pub pix_arrays : Option (List PixelArray)
  pub pix_array_count : ℕ
  pub virtual_array_sub_position : ℕ
  pub scaled_pix_count : ℕ
  pub scaled_virtual_array_length : ℕ
  pub noise_table : List ℕ
