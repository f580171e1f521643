-- ===== src/Gfx/Positions/Matrix.antt =====
-- calc_index of gfx_lib.c on the matrix of all pixels: which positions share a pixel.
use chromatron.Base.{
  ℕ, ◌+◌, ◌-◌, ◌*◌, ◌/◌, ◌%◌, ◌^◌, ◌≤◌, ◌<◌, ◌≡◌, refl, sym, ap, subst, ◌∙◌, Bool, true, false,
  ◌&&◌, some, some-injective, ◌==◌, if◌then◌else◌, arith,
}
use native.Mathlib.Nat.{mod-eq_of_lt, add-mul-mod_self_right, add-mul-div_right, div-eq_of_lt}
use chromatron.Gfx.Types.{PixelArray, Gfx, max_pixels}
use chromatron.Gfx.Positions.{array_at, interleaved, calc_index}
use chromatron.Gfx.Positions.Layout.{
  IsArray, cell, from_end, cell_lem, from_end_lem, row_of, column_of, calc_index_lem, sizes_lem,
}

unflipped :
    (b : Bool) (n i j : ℕ)
    → i < n
    → j < n
    → (if b then n - 1 - i else i) ≡ (if b then n - 1 - j else j)
    → i ≡ j
unflipped true n i j hi hj e = omega arith
unflipped false n i j hi hj e = e

-- Two cells of a row of the same length are one only in the same row.
pub same_cell : (w x y x' y' : ℕ) → x < w → x' < w → x + y * w ≡ x' + y' * w → (x ≡ x') × (y ≡ y')
same_cell w x y x' y' h h' e =
    let pos : 0 < w = omega arith in
    let part : (x + y * w) / w ≡ 0 + y =
      add-mul-div_right x y pos ∙ ap (λ k. k + y) (div-eq_of_lt h) in
    let part' : (x' + y' * w) / w ≡ 0 + y' =
      add-mul-div_right x' y' pos ∙ ap (λ k. k + y') (div-eq_of_lt h') in
    (
      sym (mod-eq_of_lt h)
          ∙ sym (add-mul-mod_self_right x y w)
          ∙ ap (λ k. k % w) e
          ∙ add-mul-mod_self_right x' y' w
          ∙ mod-eq_of_lt h',
      omega (arith, part, part', ap (λ k. k / w) e),
    )

-- The first array as `setup_master_array` leaves it.
pub record IsMaster (g : Gfx) (a : PixelArray) : Type 0 where
  pub known : 0 < g.pix_array_count
  pub first : array_at 0 g ≡ some a
  pub array : IsArray a
  pub from_zero : a.index ≡ 0
  pub whole : a.count ≡ g.settings.pix_count
  pub enough : g.settings.pix_count ≤ max_pixels
  pub real : g.settings.virtual_array_length ≡ 0
  pub upright : g.settings.transpose ≡ false

-- The column in the row `y`, where every other row runs back.
abbrev folded : PixelArray → ℕ → ℕ → Gfx → ℕ
folded a x y g = if g.settings.interleave_x && y % 2 == 1 then a.size_x - 1 - x else x

turned_lt : (b : Bool) (w x : ℕ) → x < w → (if b then w - 1 - x else x) < w
turned_lt true w x h = omega arith
turned_lt false w x h = h

interleaved_lem :
    (a : PixelArray) (x y : ℕ) (g : Gfx)
    → x < a.size_x
    → a.size_x < 2 ^ 16
    → interleaved a x y g ≡ folded a x y g
unfolding interleaved
interleaved_lem a x y g lt small =
    let back : (a.size_x + 2 ^ 17 - 1 - x) % 2 ^ 16 ≡ a.size_x - 1 - x = omega arith in rw back refl

-- The offset of a position of the matrix is its own in the array.
matrix_cell :
    (a : PixelArray) (x y : ℕ)
    → IsArray a
    → x < a.size_x
    → y < a.size_y
    → cell a x y ≡ x + y * a.size_x
matrix_cell a x y h hx hy =
    let two : (y == 65535) ≡ false = ground (arith, (sizes_lem a h).1, h.small) in
    rw (two, mod-eq_of_lt hx, mod-eq_of_lt hy) refl

master_index :
    (g : Gfx) (a : PixelArray) (x y : ℕ)
    → IsMaster g a
    → x < a.size_x
    → y < a.size_y
    → (folded a x y g + y * a.size_x < a.count)
      × (calc_index 0 x y g ≡ some (from_end a (folded a x y g + y * a.size_x)))
master_index g a x y m hx hy =
    let h : IsArray a = m.array in
    let sizes = sizes_lem a h in
    let column : folded a x y g < a.size_x =
      turned_lt (g.settings.interleave_x && y % 2 == 1) a.size_x x hx in
    let at : cell a (folded a x y g) y ≡ folded a x y g + y * a.size_x =
      matrix_cell a (folded a x y g) y h column hy in
    let inside : folded a x y g + y * a.size_x < a.count =
      subst (λ k. k < a.count) at (cell_lem a (folded a x y g) y h) in
    let way : interleaved a x y g ≡ folded a x y g =
      interleaved_lem a x y g hx (omega (arith, sizes.0, h.small)) in
    let pos : 0 < g.settings.pix_count = omega (arith, h.some_pixels, m.whole) in
    let place : ℕ = from_end a (folded a x y g + y * a.size_x) in
    let low : place + a.index < g.settings.pix_count =
      omega (arith, from_end_lem a (folded a x y g + y * a.size_x) inside, m.from_zero, m.whole) in
    let last : (place + a.index) % g.settings.pix_count ≡ place =
      mod-eq_of_lt low ∙ omega (arith, m.from_zero) in
    let column' : column_of a x y g ≡ folded a x y g =
      ap (λ b. interleaved a (if b then y else x) (if b then x else y) g) m.upright ∙ way in
    let row' : row_of x y g ≡ y = ap (λ b. if b then x else y) m.upright in
    let there : (from_end a (cell a (column_of a x y g) (row_of x y g)) + a.index)
          % g.settings.pix_count
        ≡ place =
      ap (λ c. (from_end a (cell a c (row_of x y g)) + a.index) % g.settings.pix_count) column'
      ∙ ap (λ r. (from_end a (cell a (folded a x y g) r) + a.index) % g.settings.pix_count) row'
      ∙ ap (λ k. (from_end a k + a.index) % g.settings.pix_count) at
      ∙ last in
    (inside, (calc_index_lem 0 x y a g m.known m.first h m.real pos m.enough).0 ∙ ap some there)

-- Two positions inside the matrix of array 0 that calc_index takes to the same pixel are the same position, whether rows
-- are interleaved or not and the array is reversed or not. There is no virtual array and no transposition, the array starts
-- at pixel 0 and has as many pixels as are in use, 1 to 320, and its sizes are not 0 and fit in them.
pub calc_index-injective :
    (g : Gfx) (a : PixelArray) (x y x' y' : ℕ)
    → IsMaster g a
    → x < a.size_x
    → y < a.size_y
    → x' < a.size_x
    → y' < a.size_y
    → calc_index 0 x y g ≡ calc_index 0 x' y' g
    → (x ≡ x') × (y ≡ y')
calc_index-injective g a x y x' y' m hx hy hx' hy' e =
    let (inside, here) = master_index g a x y m hx hy in
    let (inside', there) = master_index g a x' y' m hx' hy' in
    let cells =
      unflipped a.reverse a.count _ _ inside inside' (some-injective _ _ (sym here ∙ e ∙ there)) in
    let (columns, rows) =
      same_cell a.size_x _ y _ y' (turned_lt (g.settings.interleave_x && y % 2 == 1) a.size_x x hx)
        (turned_lt (g.settings.interleave_x && y' % 2 == 1) a.size_x x' hx') cells in
    let flags : folded a x y g ≡ folded a x' y g = columns ∙ ap (λ k. folded a x' k g) (sym rows) in
    (unflipped (g.settings.interleave_x && y % 2 == 1) a.size_x x x' hx hx' flags, rows)
