-- ===== src/Gfx/Proper.antt =====
-- The invariant of the state of src/lib_chromatron/gfx_lib.c, and the operations that keep it.
use chromatron.Base.{
  ℕ, ◌*◌, ◌/◌, ◌%◌, Bool, ◌≤◌, ◌<◌, ◌^◌, ◌≡◌, refl, sym, ap, subst, ◌∙◌, true, false, List, [], ◌∷◌,
  Option, none, some, length, All, ◌==◌, if◌then◌else◌, arith,
}
use chromatron.Gfx.Types.{PixelArray, Settings, Gfx, max_pixels}
use chromatron.Gfx.Fader.Countdown.{IsFader, new_step_lem}
use chromatron.Gfx.Fader.Fades.{IsDriven}
use chromatron.Gfx.Frames.Fading.{IsPixel, IsFading}
use chromatron.Gfx.Positions.{divisor}
use chromatron.Gfx.Params.{
  Params, param_error_check, stored, update_master_fader, with_master, setup_master,
  setup_master_array, virtual_numbers, set_params, get_params, compute_dimmer_lookup,
}
use chromatron.Gfx.Params.Checks.{IsChecked, param_error_check-IsChecked}

-- The module has its 320 pixels, all numbers have their widths, the settings are checked and a dimmer without a
-- step is at its target.
pub record IsProper (g : Gfx) : Type 0 where
  pub checked : IsChecked g.settings
  pub full : length g.pixels ≡ max_pixels
  pub pixels : All IsPixel g.pixels
  pub dimmer : IsFader g.dimmer
  pub driven : IsDriven g.dimmer

-- The frames of a proper state run and end.
pub IsProper-IsFading : (g : Gfx) → IsProper g → IsFading g
IsProper-IsFading g h = record {
  counted = subst (λ k. g.settings.pix_count ≤ k) (sym h.full) h.checked.enough;
  pixels = h.pixels;
  dimmer = h.dimmer;
  driven = h.driven;
}

pub update_master_fader-IsProper :
    (g : Gfx)
    → IsChecked g.settings
    → length g.pixels ≡ max_pixels
    → All IsPixel g.pixels
    → g.dimmer.level < 2 ^ 16
    → IsProper (update_master_fader g)
unfolding update_master_fader
update_master_fader-IsProper g c f p l =
    let step = new_step_lem _ _ in
    record {
      checked = c;
      full = f;
      pixels = p;
      dimmer = record { level = l; target = omega arith; step = step.1 };
      driven = λ z. absurd (step.0 z);
    }

-- Where there are arrays there is a first one.
abbrev pub HasFirst : Option (List PixelArray) → Type 0
HasFirst o = (arrays : List PixelArray) → o ≡ some arrays → 0 < length arrays

setup_master_lem :
    (o : Option (List PixelArray)) (g : Gfx)
    → g.pix_arrays ≡ o
    → HasFirst o
    → (changed : Option (List PixelArray)) × (setup_master o g
        ≡ some (record g { pix_arrays = changed }))
unfolding setup_master with_master
setup_master_lem none g e h = (g.pix_arrays, refl)
setup_master_lem (some []) g e h = absurd (omega (arith, h [] refl))
setup_master_lem (some (a ∷ rest)) g e h = (_, refl)

virtual_numbers_lem :
    (g : Gfx)
    → IsProper g
    → (g' : Gfx) × (virtual_numbers g ≡ some g') × IsProper g' × (g'.settings ≡ g.settings)
unfolding virtual_numbers divisor
virtual_numbers_lem g h =
    let pos : (g.settings.pix_count == 0) ≡ false = ground (arith, h.checked.some_pixels) in
    let g' : Gfx = record g {
      virtual_array_sub_position = g.settings.virtual_array_start / g.settings.pix_count % 2 ^ 8;
      scaled_pix_count = g.settings.pix_count * 65536 % 2 ^ 32;
      scaled_virtual_array_length = g.settings.virtual_array_length * 65536 % 2 ^ 32;
    } in
    (
      g',
      rw pos refl,
      record {
        checked = h.checked;
        full = h.full;
        pixels = h.pixels;
        dimmer = h.dimmer;
        driven = h.driven;
      },
      refl,
    )

-- What the new table of the dimmer leaves alone.
record Keeps (g h : Gfx) : Type 0 where
  settings : h.settings ≡ g.settings
  pixels : h.pixels ≡ g.pixels
  dimmer : h.dimmer ≡ g.dimmer

curve_lem :
    (curve : ℕ → List ℕ) (same : Bool) (g : Gfx)
    → Keeps g (if same then g else compute_dimmer_lookup curve g)
unfolding compute_dimmer_lookup
curve_lem curve true g = record { settings = refl; pixels = refl; dimmer = refl }
curve_lem curve false g = record { settings = refl; pixels = refl; dimmer = refl }

faded_lem :
    (g h : Gfx)
    → Keeps g h
    → IsChecked g.settings
    → length g.pixels ≡ max_pixels
    → All IsPixel g.pixels
    → g.dimmer.level < 2 ^ 16
    → IsProper (update_master_fader h)
faded_lem g h k c f p l =
    update_master_fader-IsProper h (subst IsChecked (sym k.settings) c) (ap length k.pixels ∙ f)
      (subst (All IsPixel) (sym k.pixels) p) (subst (λ d. d.level < 2 ^ 16) (sym k.dimmer) l)

-- The numbers of `gfx_params_t` have their widths.
pub record HasWidths (p : Params) : Type 0 where
  pub size_x : p.settings.pix_size_x < 2 ^ 16
  pub size_y : p.settings.pix_size_y < 2 ^ 16

pub set_params-IsProper :
    (curve : ℕ → List ℕ) (p : Params) (g : Gfx)
    → IsProper g
    → HasFirst g.pix_arrays
    → HasWidths p
    → p.version ≡ 1
    → (g' : Gfx) × (set_params curve p g ≡ some g')
      × IsProper g'
      × (get_params g' ≡ record { version = 1; settings = param_error_check (stored p.settings) })
unfolding set_params get_params setup_master_array update_master_fader compute_dimmer_lookup stored
set_params-IsProper curve p g h first w v =
    let settings : Settings = param_error_check (stored p.settings) in
    let loaded : Gfx = record g { settings = settings } in
    let (arrays, made) = setup_master_lem g.pix_arrays loaded refl first in
    let checked : IsChecked settings =
      param_error_check-IsChecked (stored p.settings) w.size_x w.size_y in
    let h1 : Gfx = record loaded { pix_arrays = arrays } in
    let same : Bool = g.settings.dimmer_curve == settings.dimmer_curve in
    let k : Gfx = if same then h1 else compute_dimmer_lookup curve h1 in
    let kept : Keeps h1 k = curve_lem curve same h1 in
    let faded : IsProper (update_master_fader k) =
      faded_lem h1 k kept checked h.full h.pixels h.dimmer.level in
    let (g', done, proper, same_settings) = virtual_numbers_lem (update_master_fader k) faded in
    let right : (p.version == 1) ≡ true = ground (arith, v) in
    (
      g',
      rw (right, made) done,
      proper,
      ap (λ s. record { version = 1; settings = s }) (same_settings ∙ kept.settings),
    )
