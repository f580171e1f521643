-- ===== src/Gfx/Steps.antt =====
-- The calls that the rest of the firmware makes of gfx_lib.c, one after the other.
use Prim.Native.Nat.{zero, suc}
use chromatron.Base.{
  [], ◌∷◌, ℕ, ◌≤◌, ◌<◌, ◌^◌, ◌≡◌, refl, sym, ap, subst, ◌∙◌, true, false, List, some,
  some-injective, get_elem?, length, All, leb, if◌then◌else◌, arith,
}
use chromatron.Base.Bytes.{>>=-eq-some}
use chromatron.Word.{is_neg, to_u16}
use chromatron.Random.{Lfsr}
use chromatron.Vm.Types.{Attr, hue, sat, val, ArrayOp}
use chromatron.Gfx.Types.{Pixel, PixelArray, Gfx, max_pixels}
use chromatron.Gfx.Fader.Countdown.{IsFader}
use chromatron.Gfx.Fader.Fades.{IsDriven}
use chromatron.Gfx.Frames.{process_faders, run_frames}
use chromatron.Gfx.Frames.Fading.{IsPixel, IsThere, run_frames-Settles}
use chromatron.Gfx.Frames.Kept.{process_faders-IsFramed}
use chromatron.Gfx.Positions.{array_at, calc_index}
use chromatron.Gfx.Setters.{set_1d, set_attr, set_unless_neg, set_hsv, set_hsv_from, clear}
use chromatron.Gfx.Arrays.{array_op}
use chromatron.Gfx.Arrays.Loops.{HasResult, set_1d-IsProper, array_op-IsProper}
use chromatron.Gfx.Colors.{get_dimmed_val, hsv_to_rgb, put_outputs, sync_array}
use chromatron.Gfx.Params.{
  init_pixel_arrays, setup_master_array, setup_master, with_master, master_array, Params, init,
  set_params, set_master_dimmer, set_submaster_dimmer,
}
use chromatron.Gfx.Params.Checks.{IsChecked}
use chromatron.Gfx.Starts.{HasRoom, init-IsProper}
use chromatron.Gfx.Proper.{
  IsProper, IsProper-IsFading, HasFirst, HasWidths, set_params-IsProper,
  update_master_fader-IsProper,
}

-- One call, with the conditions that its callers meet: numbers of the right width, parameters of the right
-- version, an array that exists and no division by 0.
pub data Step (curve : ℕ → List ℕ) (g : Gfx) : Gfx → Type 0 where
  set :
      (p : Params) {g' : Gfx}
      → HasFirst g.pix_arrays
      → HasWidths p
      → p.version ≡ 1
      → set_params curve p g ≡ some g'
      → Step curve g g'
  assigned :
      (attr : Attr) (v x y obj : ℕ) {g' : Gfx}
      → v < 2 ^ 16
      → set_attr attr v x y obj g ≡ some g'
      → Step curve g g'
  colored : (h s v index : ℕ) → Step curve g (set_hsv h s v index g)
  wiped : Step curve g (clear g)
  on_array :
      (op : ArrayOp) (obj attr src : ℕ) (a : PixelArray) {g' : Gfx}
      → HasResult op src
      → array_at obj g ≡ some a
      → array_op op obj attr src g ≡ some g'
      → Step curve g g'
  given :
      (arrays : List PixelArray) (count : ℕ) {g' : Gfx}
      → init_pixel_arrays arrays count g ≡ some g'
      → Step curve g g'
  dimmed : (v : ℕ) → Step curve g (set_master_dimmer v g)
  subdimmed : (v : ℕ) → Step curve g (set_submaster_dimmer v g)
  framed : {g' : Gfx} → process_faders g ≡ some g' → Step curve g g'
  put_out : {g' : Gfx} → sync_array g ≡ some g' → Step curve g g'

-- Any number of calls.
pub data Reach (curve : ℕ → List ℕ) (g : Gfx) : Gfx → Type 0 where
  begin : Reach curve g g
  call : {h k : Gfx} → Reach curve g h → Step curve h k → Reach curve g k

-- A dimmer and pixels that were not changed.
same_parts :
    (g h : Gfx)
    → IsProper g
    → h.settings ≡ g.settings
    → h.pixels ≡ g.pixels
    → h.dimmer ≡ g.dimmer
    → IsProper h
same_parts g h p es ep ed = record {
  checked = subst IsChecked (sym es) p.checked;
  full = ap length ep ∙ p.full;
  pixels = subst (All IsPixel) (sym ep) p.pixels;
  dimmer = subst IsFader (sym ed) p.dimmer;
  driven = subst IsDriven (sym ed) p.driven;
}

unless_neg-IsProper :
    (attr : Attr) (v index : ℕ) (g : Gfx) → IsProper g → IsProper (set_unless_neg attr v index g)
unfolding set_unless_neg to_u16
unless_neg-IsProper attr v index g p = by_sign (is_neg v)
  where
    by_sign : (b : _) → IsProper (if b then g else set_1d attr (to_u16 v) index g)
    by_sign true = p
    by_sign false = set_1d-IsProper attr (to_u16 v) index g (omega arith) p

set_hsv-IsProper : (h s v index : ℕ) (g : Gfx) → IsProper g → IsProper (set_hsv h s v index g)
unfolding set_hsv
set_hsv-IsProper h s v index g p =
    unless_neg-IsProper val v index _
      (unless_neg-IsProper sat s index _ (unless_neg-IsProper hue h index g p))

hsv_from-IsProper : (h s v n i : ℕ) (g : Gfx) → IsProper g → IsProper (set_hsv_from h s v n i g)
unfolding set_hsv_from
hsv_from-IsProper h s v zero i g p = p
hsv_from-IsProper h s v (suc n) i g p = hsv_from-IsProper h s v n _ _ (set_hsv-IsProper h s v i g p)

set_attr-IsProper :
    (attr : Attr) (v x y obj : ℕ) (g g' : Gfx)
    → v < 2 ^ 16
    → IsProper g
    → set_attr attr v x y obj g ≡ some g'
    → IsProper g'
unfolding set_attr
set_attr-IsProper attr v x y obj g g' lt p e =
    let (index, found, same) = >>=-eq-some (calc_index obj x y g) _ e in
    subst IsProper (some-injective _ _ same) (by_test index (leb max_pixels index))
  where
    by_test : (index : ℕ) (b : _) → IsProper (if b then g else set_1d attr v index g)
    by_test index true = p
    by_test index false = set_1d-IsProper attr v index g lt p

frame-IsProper : (g g' : Gfx) → IsProper g → process_faders g ≡ some g' → IsProper g'
frame-IsProper g g' p e =
    let (h, made, kept) = process_faders-IsFramed g (IsProper-IsFading g p) in
    subst IsProper (some-injective _ _ (sym made ∙ e)) (record {
      checked = subst IsChecked (sym kept.settings) p.checked;
      full = kept.full ∙ p.full;
      pixels = kept.pixels;
      dimmer = kept.dimmer;
      driven = kept.driven;
    })

sync-IsProper : (g g' : Gfx) → IsProper g → sync_array g ≡ some g' → IsProper g'
unfolding sync_array
sync-IsProper g g' p e =
    let (q, at, e1) = >>=-eq-some (get_elem? g.pixels 0) _ e in
    let (v, dim, e2) = >>=-eq-some (get_dimmed_val q.val.level g) _ e1 in
    let (os, out, e3) = >>=-eq-some (put_outputs g g.settings.pix_count g.pixels g.outputs) _ e2 in
    let synced : Gfx = record g { pix0 = hsv_to_rgb q.hue.level q.sat.level v; outputs = os } in
    subst IsProper (some-injective _ _ e3) (same_parts g synced p refl refl refl)

given-IsProper :
    (arrays : List PixelArray) (count : ℕ) (g g' : Gfx)
    → IsProper g
    → init_pixel_arrays arrays count g ≡ some g'
    → IsProper g'
unfolding init_pixel_arrays setup_master_array setup_master with_master
given-IsProper [] count g g' p e = absurd (ground arith)
given-IsProper (a ∷ rest) count g g' p e = subst IsProper (some-injective _ _ e) (
    same_parts g
      (record g { pix_arrays = some (master_array g.settings a ∷ rest); pix_array_count = count }) p
      refl refl refl)

-- Every call keeps the invariant.
pub step-IsProper : (curve : ℕ → List ℕ) (g g' : Gfx) → IsProper g → Step curve g g' → IsProper g'
unfolding clear set_master_dimmer set_submaster_dimmer
step-IsProper curve g g' p (set q first w v e) =
    let (h, made, proper, same) = set_params-IsProper curve q g p first w v in
    subst IsProper (some-injective _ _ (sym made ∙ e)) proper
step-IsProper curve g g' p (assigned attr v x y obj lt e) =
    set_attr-IsProper attr v x y obj g g' lt p e
step-IsProper curve g g' p (colored h s v index) = set_hsv-IsProper h s v index g p
step-IsProper curve g g' p wiped = hsv_from-IsProper _ _ _ _ _ g p
step-IsProper curve g g' p (on_array op obj attr src a r at e) =
    let (h, made, proper, same, others) = array_op-IsProper op obj attr src a g p r at in
    subst IsProper (some-injective _ _ (sym made ∙ e)) proper
step-IsProper curve g g' p (given arrays count e) = given-IsProper arrays count g g' p e
step-IsProper curve g g' p (dimmed v) =
    update_master_fader-IsProper (record g { settings = record g.settings { master_dimmer = v } })
      (record {
        some_pixels = p.checked.some_pixels;
        enough = p.checked.enough;
        wide = p.checked.wide;
        high = p.checked.high;
        area = p.checked.area;
        rate = p.checked.rate;
      })
      p.full p.pixels p.dimmer.level
step-IsProper curve g g' p (subdimmed v) =
    update_master_fader-IsProper (record g { settings = record g.settings { sub_dimmer = v } })
      (record {
        some_pixels = p.checked.some_pixels;
        enough = p.checked.enough;
        wide = p.checked.wide;
        high = p.checked.high;
        area = p.checked.area;
        rate = p.checked.rate;
      })
      p.full p.pixels p.dimmer.level
step-IsProper curve g g' p (framed e) = frame-IsProper g g' p e
step-IsProper curve g g' p (put_out e) = sync-IsProper g g' p e

-- After gfxlib_v_init, on variables of the right widths, and any number of the calls above, the state has its
-- 320 pixels, checked settings and numbers of the right widths. Frames then run, and after 2 ^ 16 + 2 of them every pixel in
-- use is at its targets, wherever the calls left it.
pub Reach-Settles :
    (curve : ℕ → List ℕ) (r : Lfsr) (g h : Gfx)
    → HasRoom g
    → Reach curve (init curve r g).0 h
    → IsProper h
      × ((n : ℕ)
          → 65538 ≤ n
          → (h' : Gfx) × (run_frames n h ≡ some h')
            × ((i : ℕ) (p : Pixel)
                → i < h.settings.pix_count
                → get_elem? h.pixels i ≡ some p
                → (q : Pixel) × (get_elem? h'.pixels i ≡ some q) × IsThere p q))
Reach-Settles curve r g h room reach =
    let proper : IsProper h = reached reach in
    (
      proper,
      λ n le.
          let (h', run, there, dim) = run_frames-Settles h n (IsProper-IsFading h proper) le in
          (h', run, there),
    )
  where
    reached : {k : Gfx} → Reach curve (init curve r g).0 k → IsProper k
    reached begin = init-IsProper curve r g room
    reached (call s step) = step-IsProper curve _ _ (reached s) step
