-- ===== src/Gfx/Params/Checks.antt =====
-- What the checks of the parameters of gfx_lib.c establish.
use chromatron.Base.{
  ℕ, ◌*◌, ◌%◌, ◌^◌, ◌≤◌, ◌<◌, ◌≡◌, refl, ltb, if◌then◌else◌, arith, true, false, ◌⊎◌, inl, inr,
  dec_lt,
}
use chromatron.Gfx.Types.{Settings, max_pixels}
use chromatron.Gfx.Params.{checked_count, checked_size, param_error_check}
use native.Mathlib.Nat.{mul-le-mul, mul-le-mul_left, mul-le-mul_right}

-- What the other operations rely on.
pub record IsChecked (s : Settings) : Type 0 where
  pub some_pixels : 0 < s.pix_count
  pub enough : s.pix_count ≤ max_pixels
  pub wide : 0 < s.pix_size_x
  pub high : 0 < s.pix_size_y
  pub area : s.pix_size_x * s.pix_size_y ≤ s.pix_count
  pub rate : 10 ≤ s.frame_rate

checked_count_lem : (n : ℕ) → (0 < checked_count n) × (checked_count n ≤ max_pixels)
unfolding checked_count
checked_count_lem n = ground arith

-- A size is in range after its check: it stays, or it was out of range and is 1.
size_lem :
    (count size : ℕ)
    → 0 < count
    → (0 < checked_size count size)
      × (checked_size count size ≤ count)
      × ((checked_size count size ≡ size) ⊎ (checked_size count size ≡ 1))
unfolding checked_size
size_lem count size pos = ground arith

-- Both sizes fit together where their product was not too large.
fit_lem :
    (count x y : ℕ)
    → 0 < count
    → x * y ≤ count
    → checked_size count x * checked_size count y ≤ count
fit_lem count x y pos h =
    let (px, lx, ex) = size_lem count x pos in
    let (py, ly, ey) = size_lem count y pos in
    elim ex [
      | inr e ↦ rw e (omega (arith, ly))
      | inl e ↦ elim ey [ inr k ↦ rw k (omega (arith, lx)) | inl k ↦ rw (e, k) h ]
    ]

over_lem : (count : ℕ) → 0 < count → checked_size count count * checked_size count 1 ≤ count
unfolding checked_size
over_lem count pos =
    let whole : checked_size count count ≡ count = ground arith in
    let one : checked_size count 1 ≡ 1 = ground arith in rw (whole, one) (omega arith)

area_lem :
    (count x y : ℕ)
    → 0 < count
    → (let over = ltb count (x * y) in
        checked_size count (if over then count else x) * checked_size count (if over then 1 else y)
        ≤ count)
area_lem count x y pos = elim (dec_lt count (x * y)) [
  | yes far ↦ let over : ltb count (x * y) ≡ true = ground arith in rw over (over_lem count pos)
  | no near ↦
      let over : ltb count (x * y) ≡ false = ground arith in
      rw over (fit_lem count x y pos (omega arith))
]

-- The checks of the parameters give between 1 and 320 pixels, sizes of at least 1 that together
-- are at most the pixels, and at least 10 frames, whatever the sizes were.
pub param_error_check-IsChecked :
    (s : Settings) → s.pix_size_x < 2 ^ 16 → s.pix_size_y < 2 ^ 16 → IsChecked (param_error_check s)
unfolding param_error_check
param_error_check-IsChecked s hx hy =
    let small : s.pix_size_x * s.pix_size_y ≤ 65535 * 65535 =
      mul-le-mul {n₂ = 65535} {m₂ = 65535} (omega arith) (omega arith) in
    let whole : s.pix_size_x * s.pix_size_y % 2 ^ 32 ≡ s.pix_size_x * s.pix_size_y =
      omega (arith, small) in
    let count = checked_count_lem s.pix_count in
    record {
      some_pixels = count.0;
      enough = count.1;
      wide = (size_lem _ _ count.0).0;
      high = (size_lem _ _ count.0).0;
      area = rw whole (area_lem (checked_count s.pix_count) s.pix_size_x s.pix_size_y count.0);
      rate = ground arith;
    }

checked_count-same : (n : ℕ) → 0 < n → n ≤ max_pixels → checked_count n ≡ n
unfolding checked_count
checked_count-same n pos h = ground arith

checked_size-same : (count size : ℕ) → 0 < size → size ≤ count → checked_size count size ≡ size
unfolding checked_size
checked_size-same count size pos h = ground arith

-- Checked settings pass the checks unchanged.
pub param_error_check-idempotent : (s : Settings) → IsChecked s → param_error_check s ≡ s
unfolding param_error_check
param_error_check-idempotent s h =
    let count : checked_count s.pix_count ≡ s.pix_count =
      checked_count-same s.pix_count h.some_pixels h.enough in
    let wide : s.pix_size_x * 1 ≤ s.pix_size_x * s.pix_size_y =
      mul-le-mul_left s.pix_size_x h.high in
    let high : 1 * s.pix_size_y ≤ s.pix_size_x * s.pix_size_y =
      mul-le-mul_right s.pix_size_y h.wide in
    let fits : ltb s.pix_count (s.pix_size_x * s.pix_size_y % 2 ^ 32) ≡ false =
      ground (arith, h.area, h.enough) in
    let x : checked_size s.pix_count s.pix_size_x ≡ s.pix_size_x =
      checked_size-same s.pix_count s.pix_size_x h.wide (omega (arith, wide, h.area)) in
    let y : checked_size s.pix_count s.pix_size_y ≡ s.pix_size_y =
      checked_size-same s.pix_count s.pix_size_y h.high (omega (arith, high, h.area)) in
    let rate : ltb s.frame_rate 10 ≡ false = ground (arith, h.rate) in
    rw (count, fits, x, y, rate) refl
