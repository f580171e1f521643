-- ===== src/Gfx/Frames.antt =====
-- gfx_v_process_faders of src/lib_chromatron/gfx_lib.c: one frame of all faders.
pub mod Fading
pub mod Kept
use Prim.Native.Nat.{zero, suc}
use chromatron.Base.{ℕ, List, [], ◌∷◌, Option, none, some}
use chromatron.Base.Bytes.{◌>>=◌}
use chromatron.Gfx.Types.{Pixel, Gfx}
use chromatron.Gfx.Fader.{Fader, move, fade_hue, fade_level}

unfoldable pub fade_pixel : Pixel → Pixel
fade_pixel p = record p {
  hue = fade_hue p.hs_fade p.hue;
  sat = fade_level p.hs_fade p.sat;
  val = fade_level p.v_fade p.val;
}

-- The loop over the first pixels. Past the end of the arrays there is no result.
unfoldable pub each_pixel : (Pixel → Pixel) → ℕ → List Pixel → Option (List Pixel)
each_pixel f zero ps = some ps
each_pixel f (suc n) [] = none
each_pixel f (suc n) (p ∷ ps) = do qs ← each_pixel f n ps; some (f p ∷ qs)

unfoldable pub process_faders : Gfx → Option Gfx
process_faders g = do
  ps ← each_pixel fade_pixel g.settings.pix_count g.pixels
  some (record g { dimmer = move g.dimmer; pixels = ps })

-- `n` frames, one after the other.
unfoldable pub run_frames : ℕ → Gfx → Option Gfx
run_frames zero g = some g
run_frames (suc n) g = do h ← process_faders g; run_frames n h
