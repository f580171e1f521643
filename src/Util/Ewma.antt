-- ===== src/Util/Ewma.antt =====
-- The moving average of unsigned numbers.
use Prim.Native.Nat.{min, max}
use native.Mathlib.Nat.{mul-le-mul_left, add-mul}
use chromatron.Base.{
  ℕ, ◌+◌, ◌-◌, ◌*◌, ◌/◌, ◌%◌, ◌^◌, ◌≤◌, ◌<◌, ◌≡◌, false, ◌&&◌, ltb, arith, ap, sym, ◌∙◌,
}
use chromatron.Util.{u16_ewma}

weights : (r m : ℕ) → r ≤ 256 → r * m + (256 - r) * m ≡ 256 * m
weights r m h = sym (add-mul r (256 - r) m) ∙ ap (λ k. k * m) (omega arith)

-- The next value of the average is at most the larger one of the new value and the old average, and
-- at least the smaller one less 1. Where the new value is larger, it is not below the old average.
pub u16_ewma-bounds :
    (new old ratio : ℕ)
    → new < 2 ^ 16
    → old < 2 ^ 16
    → ratio < 2 ^ 8
    → let next : ℕ = u16_ewma new old ratio in
      (next ≤ max new old) × (min new old ≤ next + 1) × ((ltb old new && ltb next old) ≡ false)
unfolding u16_ewma
u16_ewma-bounds new old ratio hn ho hr =
    let top_new : ratio * new ≤ ratio * max new old = mul-le-mul_left ratio (omega arith) in
    let top_old : (256 - ratio) * old ≤ (256 - ratio) * max new old =
      mul-le-mul_left (256 - ratio) (omega arith) in
    let low_new : ratio * min new old ≤ ratio * new = mul-le-mul_left ratio (omega arith) in
    let low_old : (256 - ratio) * min new old ≤ (256 - ratio) * old =
      mul-le-mul_left (256 - ratio) (omega arith) in
    let temp : ℕ = ratio * new / 256 + (256 - ratio) * old / 256 in
    let top : temp ≤ max new old = omega (arith, weights ratio (max new old) (omega arith)) in
    let low : min new old ≤ temp + 1 = omega (arith, weights ratio (min new old) (omega arith)) in
    let whole : temp % 2 ^ 16 ≡ temp = omega arith in rw whole (ground (arith, top, low))
