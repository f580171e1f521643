-- ===== src/Gfx/Setters/Kept.antt =====
-- What the setters of gfx_lib.c change, and what they leave alone.
use Prim.Native.Nat.{zero, suc}
use chromatron.Base.{
  ℕ, ◌%◌, ◌<◌, ◌^◌, ◌≡◌, ◌≢◌, refl, sym, ap, subst, ◌∙◌, List, [], ◌∷◌, some, get_elem?, length,
  All, leb, arith, false, some-injective,
}
use chromatron.Base.Bytes.{◌>>=◌}
use chromatron.Vm.Types.{Attr, hue, sat, val, hs_fade, v_fade}
use chromatron.Gfx.Types.{Pixel, Gfx, max_pixels}
use chromatron.Gfx.Fader.{Fader}
use chromatron.Gfx.Fader.Countdown.{IsFader}
use chromatron.Gfx.Frames.Fading.{IsPixel}
use chromatron.Gfx.Positions.{array_at, offset, virtual_offset, interleaved, index_of, calc_index}
use chromatron.Gfx.Setters.{change_at, restart, assign, set_1d, set_attr, get_attr, read_attr}

module _ {ℓ} {A : Type ℓ} where
  pub length-change_at : (f : A → A) (i : ℕ) (xs : List A) → length (change_at f i xs) ≡ length xs
  length-change_at f i [] = refl
  length-change_at f zero (x ∷ xs) = refl
  length-change_at f (suc i) (x ∷ xs) = ap suc (length-change_at f i xs)

  pub All-change_at {κ} :
      (P : A → Type κ) (f : A → A) (i : ℕ) (xs : List A)
      → ((x : A) → P x → P (f x))
      → All P xs
      → All P (change_at f i xs)
  All-change_at P f i [] step h = h
  All-change_at P f zero (x ∷ xs) step h = (step x h.0, h.1)
  All-change_at P f (suc i) (x ∷ xs) step h = (h.0, All-change_at P f i xs step h.1)

  pub get-change_at_self :
      (f : A → A) (i : ℕ) (xs : List A) (x : A)
      → get_elem? xs i ≡ some x
      → get_elem? (change_at f i xs) i ≡ some (f x)
  get-change_at_self f i [] x e = absurd (ground arith)
  get-change_at_self f zero (y ∷ xs) x e = ap (λ z. some (f z)) (some-injective _ _ e)
  get-change_at_self f (suc i) (y ∷ xs) x e = get-change_at_self f i xs x e

  pub get-change_at_ne :
      (f : A → A) (i j : ℕ) (xs : List A) → i ≢ j → get_elem? (change_at f i xs) j ≡ get_elem? xs j
  get-change_at_ne f i j [] ne = refl
  get-change_at_ne f zero zero (x ∷ xs) ne = absurd (ne refl)
  get-change_at_ne f zero (suc j) (x ∷ xs) ne = refl
  get-change_at_ne f (suc i) zero (x ∷ xs) ne = refl
  get-change_at_ne f (suc i) (suc j) (x ∷ xs) ne = get-change_at_ne f i j xs (λ e. ne (ap suc e))

aimed-IsFader :
    (f : Fader) (v : ℕ) → v < 2 ^ 16 → IsFader f → IsFader (record f { target = v; step = 0 })
aimed-IsFader f v lt h = record { level = h.level; target = lt; step = omega arith }

restart-IsFader : (f : Fader) → IsFader f → IsFader (restart f)
unfolding restart
restart-IsFader f h = record { level = h.level; target = h.target; step = omega arith }

pub assign-IsPixel :
    (attr : Attr) (v : ℕ) → v < 2 ^ 16 → (p : Pixel) → IsPixel p → IsPixel (assign attr v p)
unfolding assign
assign-IsPixel hue v lt p h = record {
  hue = aimed-IsFader p.hue v lt h.hue;
  sat = h.sat;
  val = h.val;
  hs_fade = h.hs_fade;
  v_fade = h.v_fade;
}
assign-IsPixel sat v lt p h = record {
  hue = h.hue;
  sat = aimed-IsFader p.sat v lt h.sat;
  val = h.val;
  hs_fade = h.hs_fade;
  v_fade = h.v_fade;
}
assign-IsPixel val v lt p h = record {
  hue = h.hue;
  sat = h.sat;
  val = aimed-IsFader p.val v lt h.val;
  hs_fade = h.hs_fade;
  v_fade = h.v_fade;
}
assign-IsPixel hs_fade v lt p h = record {
  hue = restart-IsFader p.hue h.hue;
  sat = restart-IsFader p.sat h.sat;
  val = h.val;
  hs_fade = lt;
  v_fade = h.v_fade;
}
assign-IsPixel v_fade v lt p h = record {
  hue = h.hue;
  sat = h.sat;
  val = restart-IsFader p.val h.val;
  hs_fade = h.hs_fade;
  v_fade = lt;
}

pub read_attr-assign : (attr : Attr) (v : ℕ) (p : Pixel) → read_attr attr (assign attr v p) ≡ v
unfolding read_attr assign
read_attr-assign hue v p = refl
read_attr-assign sat v p = refl
read_attr-assign val v p = refl
read_attr-assign hs_fade v p = refl
read_attr-assign v_fade v p = refl

pub read_attr-assign_ne :
    (attr other : Attr) (v : ℕ) (p : Pixel)
    → attr ≢ other
    → read_attr other (assign attr v p) ≡ read_attr other p
unfolding read_attr assign restart
read_attr-assign_ne attr other v p ne = ground arith

-- The numbers of a position do not depend on the pixels.
pub calc_index-pixels :
    (obj x y : ℕ) (g : Gfx) (ps : List Pixel)
    → calc_index obj x y (record g { pixels = ps }) ≡ calc_index obj x y g
unfolding calc_index array_at offset virtual_offset interleaved index_of
calc_index-pixels obj x y g ps = refl

pub present : (ps : List Pixel) (i : ℕ) → i < length ps → (p : Pixel) × (get_elem? ps i ≡ some p)
present [] i lt = absurd (omega arith)
present (p ∷ ps) zero lt = (p, refl)
present (p ∷ ps) (suc i) lt = present ps i (omega arith)

get_attr_lem :
    (attr : Attr) (x y obj index : ℕ) (g : Gfx) (ps : List Pixel)
    → calc_index obj x y g ≡ some index
    → get_attr attr x y obj (record g { pixels = ps })
      ≡ (get_elem? ps (index % max_pixels) >>= (λ p. some (read_attr attr p)))
unfolding get_attr
get_attr_lem attr x y obj index g ps found =
    ap (λ o. o >>= (λ i. get_elem? ps (i % max_pixels) >>= (λ p. some (read_attr attr p))))
      (calc_index-pixels obj x y g ps ∙ found)

-- With all 320 pixels, a value set at a position that calc_index takes to an index below 320 is the one got there.
-- Every other attribute got there is as before, and so is every attribute got at a position that calc_index takes to an
-- index with another remainder by 320.
pub get_attr-set_attr :
    (attr : Attr) (v x y obj index : ℕ) (g : Gfx)
    → length g.pixels ≡ max_pixels
    → calc_index obj x y g ≡ some index
    → index < max_pixels
    → (g' : Gfx) × (set_attr attr v x y obj g ≡ some g')
      × (get_attr attr x y obj g' ≡ some v)
      × ((other : Attr) → attr ≢ other → get_attr other x y obj g' ≡ get_attr other x y obj g)
      × ((other : Attr) (x' y' obj' index' : ℕ)
          → calc_index obj' x' y' g ≡ some index'
          → index' % max_pixels ≢ index
          → get_attr other x' y' obj' g' ≡ get_attr other x' y' obj' g)
unfolding set_attr set_1d
get_attr-set_attr attr v x y obj index g full found small =
    let g' : Gfx = record g { pixels = change_at (assign attr v) index g.pixels } in
    let low : leb max_pixels index ≡ false = ground arith in
    let same : index % max_pixels ≡ index = omega arith in
    let made : set_attr attr v x y obj g ≡ some g' = rw (found, low) refl in
    let (p, here) = present g.pixels index (subst (λ k. index < k) (sym full) small) in
    let there = get-change_at_self (assign attr v) index g.pixels p here in
    let q : Pixel = assign attr v p in
    let at_q : (other : Attr) → get_attr other x y obj g' ≡ some (read_attr other q) =
      λ other. get_attr_lem other x y obj index g g'.pixels found ∙ rw (same, there) refl in
    let at_p : (other : Attr) → get_attr other x y obj g ≡ some (read_attr other p) =
      λ other. get_attr_lem other x y obj index g g.pixels found ∙ rw (same, here) refl in
    (
      g',
      made,
      at_q attr ∙ ap some (read_attr-assign attr v p),
      λ other ne. at_q other ∙ ap some (read_attr-assign_ne attr other v p ne) ∙ sym (at_p other),
      λ other x' y' obj' index' found' ne.
          get_attr_lem other x' y' obj' index' g g'.pixels found'
          ∙ ap (λ o. o >>= (λ r. some (read_attr other r)))
              (get-change_at_ne (assign attr v) index (index' % max_pixels) g.pixels
                (λ e. ne (sym e)))
          ∙ sym (get_attr_lem other x' y' obj' index' g g.pixels found'),
    )
