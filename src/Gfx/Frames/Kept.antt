-- ===== src/Gfx/Frames/Kept.antt =====
-- What a frame of gfx_v_process_faders of gfx_lib.c keeps.
use Prim.Native.Nat.{zero, suc}
use chromatron.Base.{ℕ, ◌≡◌, refl, List, [], ◌∷◌, some, length, All}
use chromatron.Gfx.Types.{Pixel, Gfx}
use chromatron.Gfx.Fader.{shortest, fade_hue, fade_level}
use chromatron.Gfx.Fader.Countdown.{IsFader, frame-Counts, move-IsFader}
use chromatron.Gfx.Fader.Fades.{IsDriven, move-IsDriven}
use chromatron.Gfx.Frames.{fade_pixel, process_faders}
use chromatron.Gfx.Frames.Fading.{IsPixel, IsFading, first, after, each_pixel-first, length-first}

All-first {ℓ κ} :
    {A : Type ℓ} (P : A → Type κ) (f : A → A) (n : ℕ) (ps : List A)
    → ((a : A) → P a → P (f a))
    → All P ps
    → All P (first f n ps)
All-first P f zero ps step h = h
All-first P f (suc n) [] step h = h
All-first P f (suc n) (p ∷ ps) step h = (step p h.0, All-first P f n ps step h.1)

fade_pixel-IsPixel : (p : Pixel) → IsPixel p → IsPixel (fade_pixel p)
unfolding fade_pixel fade_hue fade_level
fade_pixel-IsPixel p h = record {
  hue = (frame-Counts shortest p.hs_fade p.hue h.hue).words;
  sat = (frame-Counts (λ d. d) p.hs_fade p.sat h.sat).words;
  val = (frame-Counts (λ d. d) p.v_fade p.val h.val).words;
  hs_fade = h.hs_fade;
  v_fade = h.v_fade;
}

-- What a frame keeps.
pub record IsFramed (g g' : Gfx) : Type 0 where
  pub settings : g'.settings ≡ g.settings
  pub full : length g'.pixels ≡ length g.pixels
  pub pixels : All IsPixel g'.pixels
  pub dimmer : IsFader g'.dimmer
  pub driven : IsDriven g'.dimmer

pub process_faders-IsFramed :
    (g : Gfx) → IsFading g → (g' : Gfx) × (process_faders g ≡ some g') × IsFramed g g'
unfolding process_faders
process_faders-IsFramed g h =
    let n : ℕ = g.settings.pix_count in
    let g' : Gfx = after 1 g in
    (
      g',
      rw (each_pixel-first fade_pixel n g.pixels h.counted) refl,
      record {
        settings = refl;
        full = length-first fade_pixel n g.pixels;
        pixels = All-first IsPixel fade_pixel n g.pixels fade_pixel-IsPixel h.pixels;
        dimmer = move-IsFader g.dimmer h.dimmer;
        driven = move-IsDriven g.dimmer h.driven;
      },
    )
