-- ===== src/Gfx/Arrays/Loops.antt =====
-- The array operations of gfx_lib.c: their results, and what they keep.
use Prim.Native.Nat.{zero, suc}
use native.Mathlib.Nat.{mod-lt}
use chromatron.Base.{
  ℕ, ◌+◌, ◌%◌, ◌^◌, ◌≤◌, ◌<◌, ◌≡◌, ◌≢◌, refl, sym, ap, ◌∙◌, true, false, some, leb, ◌==◌, get_elem?,
  length, arith, dec_lt,
}
use chromatron.Word.{to_u16, sdiv, smod}
use chromatron.Vm.Types.{
  Attr, hue, sat, val, hs_fade, v_fade, ArrayOp, add, sub, mul, div, mod_op, mov,
}
use chromatron.Vm.Opcodes.{cell_op, clamp_u16, pixel_value}
use chromatron.Gfx.Types.{PixelArray, Gfx, max_pixels}
use chromatron.Gfx.Frames.Fading.{IsPixel}
use chromatron.Gfx.Positions.{divisor, array_at}
use chromatron.Gfx.Setters.{assign, set_1d, read_attr}
use chromatron.Gfx.Setters.Kept.{
  length-change_at, All-change_at, get-change_at_ne, assign-IsPixel, present,
}
use chromatron.Gfx.Proper.{IsProper}
use chromatron.Gfx.Arrays.{attr_of, round_index, old_value, array_round, each_round, array_op}

pub value-u16 : (attr : Attr) (v : ℕ) → pixel_value attr v < 2 ^ 16
unfolding pixel_value clamp_u16 to_u16
value-u16 hue v = omega arith
value-u16 sat v = ground arith
value-u16 val v = ground arith
value-u16 hs_fade v = ground arith
value-u16 v_fade v = ground arith

-- The operations that have a result: a divisor is not 0.
abbrev pub HasResult : ArrayOp → ℕ → Type 0
HasResult div src = src ≢ 0
HasResult mod_op src = src ≢ 0
HasResult op src = Unit

cell_op-some : (op : ArrayOp) (v src : ℕ) → HasResult op src → (w : ℕ) × (cell_op op v src ≡ some w)
unfolding cell_op
cell_op-some add v src h = (_, refl)
cell_op-some sub v src h = (_, refl)
cell_op-some mul v src h = (_, refl)
cell_op-some div v src h =
    let nz : (src == 0) ≡ false = ground (arith, h) in (sdiv v src, rw nz refl)
cell_op-some mod_op v src h =
    let nz : (src == 0) ≡ false = ground (arith, h) in (smod v src, rw nz refl)
cell_op-some mov v src h = (_, refl)

pub set_1d-IsProper :
    (attr : Attr) (v index : ℕ) (g : Gfx)
    → v < 2 ^ 16
    → IsProper g
    → IsProper (set_1d attr v index g)
unfolding set_1d
set_1d-IsProper attr v index g lt h = elim (dec_lt index max_pixels) [
  | yes low ↦
      let b : leb max_pixels index ≡ false = ground arith in
      rw b (record {
        checked = h.checked;
        full = length-change_at (assign attr v) index g.pixels ∙ h.full;
        pixels =
            All-change_at IsPixel (assign attr v) index g.pixels (assign-IsPixel attr v lt)
              h.pixels;
        dimmer = h.dimmer;
        driven = h.driven;
      })
  | no high ↦ let b : leb max_pixels index ≡ true = ground arith in rw b h
]

old_value-some :
    (op : ArrayOp) (attr : Attr) (index : ℕ) (g : Gfx)
    → index < length g.pixels
    → (v : ℕ) × (old_value op attr index g ≡ some v)
unfolding old_value
old_value-some op attr index g lt =
    let (p, here) = present g.pixels index lt in
    elim op as (λ o. (v : ℕ) × (old_value o attr index g ≡ some v)) [
      | mov ↦ (0, refl)
      | add ↦ (read_attr attr p, rw here refl)
      | sub ↦ (read_attr attr p, rw here refl)
      | mul ↦ (read_attr attr p, rw here refl)
      | div ↦ (read_attr attr p, rw here refl)
      | mod_op ↦ (read_attr attr p, rw here refl)
    ]

-- The pixel of a round is one of the `pix_count`.
abbrev pub pixel_of : PixelArray → ℕ → ℕ → ℕ
pixel_of a i pix_count = (i + a.index) % 2 ^ 16 % pix_count

-- One round writes a value of the attribute to its pixel.
round_lem :
    (op : ArrayOp) (attr : Attr) (src : ℕ) (a : PixelArray) (i : ℕ) (g : Gfx)
    → IsProper g
    → HasResult op src
    → (w : ℕ) × (array_round op attr src a i g
        ≡ some (set_1d attr (pixel_value attr w) (pixel_of a i g.settings.pix_count) g))
unfolding array_round round_index divisor
round_lem op attr src a i g h r =
    let pos : (g.settings.pix_count == 0) ≡ false = ground (arith, h.checked.some_pixels) in
    let low : (i + a.index) % 2 ^ 16 % g.settings.pix_count < g.settings.pix_count =
      mod-lt _ h.checked.some_pixels in
    let (v, old) =
      old_value-some op attr ((i + a.index) % 2 ^ 16 % g.settings.pix_count) g
        (omega (arith, low, h.checked.enough, h.full)) in
    let (w, new) = cell_op-some op v src r in (w, rw (pos, old, new) refl)

pub set_1d-settings :
    (attr : Attr) (v index : ℕ) (g : Gfx) → (set_1d attr v index g).settings ≡ g.settings
unfolding set_1d
set_1d-settings attr v index g = ground arith

pub set_1d-other :
    (attr : Attr) (v index k : ℕ) (g : Gfx)
    → index ≢ k
    → get_elem? (set_1d attr v index g).pixels k ≡ get_elem? g.pixels k
unfolding set_1d
set_1d-other attr v index k g ne = elim (dec_lt index max_pixels) [
  | yes low ↦
      let b : leb max_pixels index ≡ false = ground arith in
      rw b (get-change_at_ne (assign attr v) index k g.pixels ne)
  | no high ↦ let b : leb max_pixels index ≡ true = ground arith in rw b refl
]

-- What the rounds `i` to `i + n` of a loop leave: the invariant, the settings and the other pixels.
record IsLooped (attr : Attr) (a : PixelArray) (i n : ℕ) (g g' : Gfx) : Type 0 where
  proper : IsProper g'
  settings : g'.settings ≡ g.settings
  others :
      (k : ℕ)
      → ((j : ℕ) → i ≤ j → j < i + n → pixel_of a j g.settings.pix_count ≢ k)
      → get_elem? g'.pixels k ≡ get_elem? g.pixels k

loop_lem :
    (op : ArrayOp) (attr : Attr) (src : ℕ) (a : PixelArray) (n i : ℕ) (g : Gfx)
    → IsProper g
    → HasResult op src
    → (g' : Gfx) × (each_round op attr src a n i g ≡ some g') × IsLooped attr a i n g g'
unfolding each_round
loop_lem op attr src a zero i g h r =
    (g, refl, record { proper = h; settings = refl; others = λ k other. refl })
loop_lem op attr src a (suc n) i g h r =
    let (w, step) = round_lem op attr src a i g h r in
    let v : ℕ = pixel_value attr w in
    let next : Gfx = set_1d attr v (pixel_of a i g.settings.pix_count) g in
    let (g', rest, looped) =
      loop_lem op attr src a n (i + 1) next
        (set_1d-IsProper attr v (pixel_of a i g.settings.pix_count) g (value-u16 attr w) h) r in
    let kept : next.settings ≡ g.settings =
      set_1d-settings attr v (pixel_of a i g.settings.pix_count) g in
    (
      g',
      rw step rest,
      record {
        proper = looped.proper;
        settings = looped.settings ∙ kept;
        others = λ k other.
            looped.others k (λ j ge lt e.
              other j (omega arith) (omega arith)
                (ap (λ t. pixel_of a j t.pix_count) (sym kept) ∙ e))
            ∙ set_1d-other attr v (pixel_of a i g.settings.pix_count) k g
                (λ e. other i (omega arith) (omega arith) e);
      },
    )

-- An array operation on an array that exists has a result, whatever the operand is, if it does not divide by 0. It keeps the
-- invariant, the settings and every pixel that is not one of the array's.
pub array_op-IsProper :
    (op : ArrayOp) (obj attr src : ℕ) (a : PixelArray) (g : Gfx)
    → IsProper g
    → HasResult op src
    → array_at obj g ≡ some a
    → (g' : Gfx) × (array_op op obj attr src g ≡ some g')
      × IsProper g'
      × (g'.settings ≡ g.settings)
      × ((k : ℕ)
          → ((j : ℕ) → j < a.count → pixel_of a j g.settings.pix_count ≢ k)
          → get_elem? g'.pixels k ≡ get_elem? g.pixels k)
unfolding array_op
array_op-IsProper op obj attr src a g h r at = elim (dec_lt obj g.pix_array_count) [
  | yes known ↦
      let b : leb g.pix_array_count obj ≡ false = ground arith in
      let (g', run, looped) = loop_lem op (attr_of attr) src a a.count 0 g h r in
      (
        g',
        rw (b, at) run,
        looped.proper,
        looped.settings,
        λ k other. looped.others k (λ j ge lt. other j (omega arith)),
      )
  | no unknown ↦
      let b : leb g.pix_array_count obj ≡ true = ground arith in
      (g, rw b refl, h, refl, λ k other. refl)
]
