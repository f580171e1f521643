-- ===== src/Gfx/Starts.antt =====
-- The state that gfxlib_v_init of gfx_lib.c leaves.
use Prim.Native.Nat.{zero, suc}
use chromatron.Base.{ℕ, ◌<◌, ◌^◌, ◌≡◌, refl, ap, List, length, replicate, All, arith}
use chromatron.Random.{Lfsr}
use chromatron.Gfx.Types.{Settings, Gfx, max_pixels}
use chromatron.Gfx.Frames.Fading.{IsPixel}
use chromatron.Gfx.Params.{
  init, reset, init_noise, blank_pixel, compute_dimmer_lookup, param_error_check,
}
use chromatron.Gfx.Params.Checks.{param_error_check-IsChecked}
use chromatron.Gfx.Proper.{IsProper, update_master_fader-IsProper}

pub length-replicate {ℓ} : {A : Type ℓ} (n : ℕ) (a : A) → length (replicate n a) ≡ n
length-replicate zero a = refl
length-replicate (suc n) a = ap suc (length-replicate n a)

pub All-replicate {ℓ κ} :
    {A : Type ℓ} (P : A → Type κ) (n : ℕ) (a : A) → P a → All P (replicate n a)
All-replicate P zero a h = tt
All-replicate P (suc n) a h = (h, All-replicate P n a h)

-- The widths of the module's own numbers before it is initialized.
pub record HasRoom (g : Gfx) : Type 0 where
  pub size_x : g.settings.pix_size_x < 2 ^ 16
  pub size_y : g.settings.pix_size_y < 2 ^ 16
  pub hs_fade : g.settings.hs_fade < 2 ^ 16
  pub v_fade : g.settings.v_fade < 2 ^ 16
  pub level : g.dimmer.level < 2 ^ 16

pub blank-IsPixel :
    (s : Settings) → s.hs_fade < 2 ^ 16 → s.v_fade < 2 ^ 16 → IsPixel (blank_pixel s)
unfolding blank_pixel
blank-IsPixel s hs v = record {
  hue = record { level = omega arith; target = omega arith; step = omega arith };
  sat = record { level = omega arith; target = omega arith; step = omega arith };
  val = record { level = omega arith; target = omega arith; step = omega arith };
  hs_fade = hs;
  v_fade = v;
}

-- gfxlib_v_init leaves a proper state, whatever the settings were.
pub init-IsProper :
    (curve : ℕ → List ℕ) (r : Lfsr) (g : Gfx) → HasRoom g → IsProper (init curve r g).0
unfolding init reset init_noise compute_dimmer_lookup param_error_check
init-IsProper curve r g h =
    update_master_fader-IsProper _ (param_error_check-IsChecked g.settings h.size_x h.size_y)
      (length-replicate max_pixels (blank_pixel (param_error_check g.settings)))
      (All-replicate IsPixel max_pixels _
        (blank-IsPixel (param_error_check g.settings) h.hs_fade h.v_fade))
      h.level
