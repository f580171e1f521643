-- ===== src/Gfx/Frames/Fading.antt =====
-- gfx_v_process_faders of gfx_lib.c over many frames: how long the fades of the pixels last.
use Prim.Native.Nat.{zero, suc}
use chromatron.Base.{
  ℕ, ◌≤◌, ◌<◌, ◌^◌, ◌≡◌, refl, sym, ap, subst, List, [], ◌∷◌, none, some, get_elem?, length, All,
  All-get, arith,
}
use chromatron.Gfx.Types.{Pixel, Gfx}
use chromatron.Gfx.Fader.{shortest, move, fade_hue, fade_level}
use chromatron.Gfx.Fader.Countdown.{IsFader}
use chromatron.Gfx.Fader.Fades.{iterate, IsAtTarget, IsDriven, ends_anyway, dimmer_ends}
use chromatron.Gfx.Frames.{fade_pixel, each_pixel, process_faders, run_frames}

pub record IsPixel (p : Pixel) : Type 0 where
  pub hue : IsFader p.hue
  pub sat : IsFader p.sat
  pub val : IsFader p.val
  pub hs_fade : p.hs_fade < 2 ^ 16
  pub v_fade : p.v_fade < 2 ^ 16

pub record IsFading (g : Gfx) : Type 0 where
  pub counted : g.settings.pix_count ≤ length g.pixels
  pub pixels : All IsPixel g.pixels
  pub dimmer : IsFader g.dimmer
  pub driven : IsDriven g.dimmer

-- The loop as a function of the list.
abbrev pub first {ℓ} : {A : Type ℓ} → (A → A) → ℕ → List A → List A
first f zero ps = ps
first f (suc n) [] = []
first f (suc n) (p ∷ ps) = f p ∷ first f n ps

pub each_pixel-first :
    (f : Pixel → Pixel) (n : ℕ) (ps : List Pixel)
    → n ≤ length ps
    → each_pixel f n ps ≡ some (first f n ps)
unfolding each_pixel
each_pixel-first f zero ps h = refl
each_pixel-first f (suc n) [] h = absurd (omega arith)
each_pixel-first f (suc n) (p ∷ ps) h = rw (each_pixel-first f n ps (omega arith)) refl

pub length-first {ℓ} :
    {A : Type ℓ} (f : A → A) (n : ℕ) (ps : List A) → length (first f n ps) ≡ length ps
length-first f zero ps = refl
length-first f (suc n) [] = refl
length-first f (suc n) (p ∷ ps) = ap suc (length-first f n ps)

get_elem?-first {ℓ} :
    {A : Type ℓ} (f : A → A) (n : ℕ) (ps : List A) (i : ℕ) (p : A)
    → i < n
    → get_elem? ps i ≡ some p
    → get_elem? (first f n ps) i ≡ some (f p)
get_elem?-first f zero ps i p h e = absurd (omega arith)
get_elem?-first f (suc n) [] i p h e = absurd (ground arith)
get_elem?-first f (suc n) (q ∷ ps) zero p h e =
    ap (λ o. elim o [ none ↦ some (f q) | some r ↦ some (f r) ]) e
get_elem?-first f (suc n) (q ∷ ps) (suc i) p h e = get_elem?-first f n ps i p (omega arith) e

get-iterate_first {ℓ} :
    {A : Type ℓ} (f : A → A) (m n : ℕ) (ps : List A) (i : ℕ) (p : A)
    → i < n
    → get_elem? ps i ≡ some p
    → get_elem? (iterate m (first f n) ps) i ≡ some (iterate m f p)
get-iterate_first f zero n ps i p h e = e
get-iterate_first f (suc m) n ps i p h e =
    get-iterate_first f m n (first f n ps) i (f p) h (get_elem?-first f n ps i p h e)

abbrev pub after : ℕ → Gfx → Gfx
after n g = record g {
  pixels = iterate n (first fade_pixel g.settings.pix_count) g.pixels;
  dimmer = iterate n move g.dimmer;
}

run_frames-after :
    (n : ℕ) (g : Gfx) → g.settings.pix_count ≤ length g.pixels → run_frames n g ≡ some (after n g)
unfolding run_frames process_faders
run_frames-after zero g h = refl
run_frames-after (suc n) g h =
    let next : Gfx = after 1 g in
    let one : each_pixel fade_pixel g.settings.pix_count g.pixels ≡ some next.pixels =
      each_pixel-first fade_pixel g.settings.pix_count g.pixels h in
    rw one (
      run_frames-after n next (
        subst (λ k. g.settings.pix_count ≤ k)
          (sym (length-first fade_pixel g.settings.pix_count g.pixels)) h))

-- The three faders of a pixel run by themselves.
record IsApart (n : ℕ) (p q : Pixel) : Type 0 where
  hue : q.hue ≡ iterate n (fade_hue p.hs_fade) p.hue
  sat : q.sat ≡ iterate n (fade_level p.hs_fade) p.sat
  val : q.val ≡ iterate n (fade_level p.v_fade) p.val

apart : (n : ℕ) (p : Pixel) → IsApart n p (iterate n fade_pixel p)
unfolding fade_pixel
apart zero p = record { hue = refl; sat = refl; val = refl }
apart (suc n) p =
    let next = apart n (fade_pixel p) in record { hue = next.hue; sat = next.sat; val = next.val }

abbrev pub IsThere : Pixel → Pixel → Type 0
IsThere p q = IsAtTarget p.hue q.hue × IsAtTarget p.sat q.sat × IsAtTarget p.val q.val

arrives_anyway : (n : ℕ) (p q : Pixel) → IsPixel p → 65538 ≤ n → IsApart n p q → IsThere p q
unfolding fade_hue fade_level
arrives_anyway n p q h le a = (
  subst (IsAtTarget p.hue) (sym a.hue) (ends_anyway shortest p.hs_fade n p.hue h.hue le),
  subst (IsAtTarget p.sat) (sym a.sat) (ends_anyway (λ d. d) p.hs_fade n p.sat h.sat le),
  subst (IsAtTarget p.val) (sym a.val) (ends_anyway (λ d. d) p.v_fade n p.val h.val le),
)

-- Whatever the faders are doing, 2 ^ 16 + 2 frames of gfx_v_process_faders run, and after them the
-- hue, saturation and value of each of the `pix_count` pixels, and the dimmer, are at their targets and no fader has a step. The
-- arrays hold `pix_count` pixels, their numbers have 16 bits, and a dimmer without a step is at its target.
pub run_frames-Settles :
    (g : Gfx) (n : ℕ)
    → IsFading g
    → 65538 ≤ n
    → (g' : Gfx) × (run_frames n g ≡ some g')
      × ((i : ℕ) (p : Pixel)
          → i < g.settings.pix_count
          → get_elem? g.pixels i ≡ some p
          → (q : Pixel) × (get_elem? g'.pixels i ≡ some q) × IsThere p q)
      × IsAtTarget g.dimmer g'.dimmer
run_frames-Settles g n h le = (
  after n g,
  run_frames-after n g h.counted,
  λ i p lt e. (
    iterate n fade_pixel p,
    get-iterate_first fade_pixel n g.settings.pix_count g.pixels i p lt e,
    arrives_anyway n p _ (All-get IsPixel g.pixels i h.pixels e) le (apart n p),
  ),
  dimmer_ends n g.dimmer h.dimmer h.driven le,
)
