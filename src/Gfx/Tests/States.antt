-- ===== src/Gfx/Tests/States.antt =====
-- The states that the tests of the graphics library run on.
use chromatron.Base.{◌+◌, ◌*◌, ◌≤◌, ◌≡◌, refl, true, false, [], ◌∷◌, some, replicate, arith}
use chromatron.Word.{to_u16, add32, smod, magnitude}
use chromatron.Util.{extend}
use chromatron.Gfx.Types.{Pixel, PixelArray, Settings, Gfx, max_pixels}
use chromatron.Gfx.Fader.{fade_steps}
use chromatron.Gfx.Frames.Fading.{IsFading, IsPixel}
use chromatron.Gfx.Positions.{
  calc_index, array_at, offset, divisor, reversed, index_of, interleaved,
}
use chromatron.Gfx.Positions.Layout.{IsArray}
use chromatron.Gfx.Positions.Matrix.{IsMaster}
use chromatron.Gfx.Params.{Params, blank_pixel}
use chromatron.Gfx.Proper.{IsProper, HasFirst, HasWidths}
use chromatron.Gfx.Starts.{HasRoom, length-replicate, All-replicate, blank-IsPixel}

-- a matrix of 3 by 2 pixels, whose second row runs back
abbrev pub matrix : Settings
matrix = record {
  pix_count = 6;
  pix_size_x = 3;
  pix_size_y = 2;
  pix_mode = 5;
  interleave_x = true;
  transpose = false;
  hs_fade = 1000;
  v_fade = 500;
  master_dimmer = 65535;
  sub_dimmer = 65535;
  frame_rate = 50;
  dimmer_curve = 128;
  virtual_array_start = 0;
  virtual_array_length = 0;
}

abbrev pub master : PixelArray
master = record { index = 0; count = 6; size_x = 3; size_y = 2; reverse = false }

-- the last two pixels
abbrev pub tail : PixelArray
tail = record { index = 4; count = 2; size_x = 2; size_y = 1; reverse = true }

abbrev pub demo : Gfx
demo = record {
  settings = matrix;
  pixels = replicate max_pixels (blank_pixel matrix);
  outputs = replicate max_pixels (record { red = 0; green = 0; blue = 0; misc = 0 });
  pix0 = (0, 0, 0);
  dimmer = record { level = 65535; target = 65535; step = 0 };
  dimmer_lookup = 0 ∷ 100 ∷ 300 ∷ 600 ∷ [];
  pix_arrays = some (master ∷ tail ∷ []);
  pix_array_count = 2;
  virtual_array_sub_position = 0;
  scaled_pix_count = 393216;
  scaled_virtual_array_length = 0;
  noise_table = [];
}

pub demo-IsProper : IsProper demo
demo-IsProper = record {
  checked = record {
    some_pixels = omega arith;
    enough = omega arith;
    wide = omega arith;
    high = omega arith;
    area = omega arith;
    rate = omega arith;
  };
  full = length-replicate max_pixels (blank_pixel matrix);
  pixels =
      All-replicate IsPixel max_pixels (blank_pixel matrix)
        (blank-IsPixel matrix (omega arith) (omega arith));
  dimmer = record { level = omega arith; target = omega arith; step = omega arith };
  driven = λ z. refl;
}

pub master-IsArray : IsArray master
master-IsArray = record {
  start = omega arith;
  some_pixels = omega arith;
  small = omega arith;
  wide = omega arith;
  high = omega arith;
  area = omega arith;
}

abbrev pub new_params : Params
new_params = record { version = 1; settings = record matrix { pix_count = 500; frame_rate = 0 } }

pub first_array : array_at 0 demo ≡ some master
unfolding array_at
first_array = refl

pub second_array : array_at 1 demo ≡ some tail
unfolding array_at
second_array = refl

-- The second row runs back: its first position is the last pixel.
pub corner : calc_index 0 0 1 demo ≡ some 5
unfolding calc_index array_at interleaved offset divisor reversed index_of extend to_u16 add32 smod
    magnitude
corner = refl

-- a pixel whose hue has 6536 to go backwards past 0, and 59000 forwards
abbrev pub fader : Pixel
fader = record {
  hue = record { level = 1000; target = 60000; step = 0 };
  sat = record { level = 0; target = 65535; step = 0 };
  val = record { level = 40000; target = 0; step = 0 };
  hs_fade = 1000;
  v_fade = 500;
}

abbrev pub fading : Gfx
fading = record demo { pixels = replicate max_pixels fader }

fader-IsPixel : IsPixel fader
fader-IsPixel = record {
  hue = record { level = omega arith; target = omega arith; step = omega arith };
  sat = record { level = omega arith; target = omega arith; step = omega arith };
  val = record { level = omega arith; target = omega arith; step = omega arith };
  hs_fade = omega arith;
  v_fade = omega arith;
}

pub fading-IsFading : IsFading fading
fading-IsFading = record {
  counted = omega (arith, length-replicate max_pixels fader);
  pixels = All-replicate IsPixel max_pixels fader fader-IsPixel;
  dimmer = record { level = omega arith; target = omega arith; step = omega arith };
  driven = λ z. refl;
}

pub fader_time : (2 * fade_steps fader.hs_fade + 1 ≤ 101) × (2 * fade_steps fader.v_fade + 1 ≤ 101)
unfolding fade_steps
fader_time = (omega arith, omega arith)

pub demo-IsMaster : IsMaster demo master
demo-IsMaster = record {
  known = omega arith;
  first = first_array;
  array = master-IsArray;
  from_zero = refl;
  whole = refl;
  enough = omega arith;
  real = refl;
  upright = refl;
}

pub demo-HasFirst : HasFirst demo.pix_arrays
demo-HasFirst arrays e = ground (arith, e)

pub new_params-HasWidths : HasWidths new_params
new_params-HasWidths = record { size_x = omega arith; size_y = omega arith }

pub demo-HasRoom : HasRoom demo
demo-HasRoom = record {
  size_x = omega arith;
  size_y = omega arith;
  hs_fade = omega arith;
  v_fade = omega arith;
  level = omega arith;
}
