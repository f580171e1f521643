-- ===== src/Gfx/Noise/Blend.antt =====
-- The noise of gfx_lib.c against the values of its table.
use Prim.Native.Nat.{min, max}
use native.Mathlib.Nat.{mul-le-mul_right, mul-add}
use chromatron.Base.{
  ℕ, ◌+◌, ◌-◌, ◌*◌, ◌/◌, ◌%◌, ◌^◌, ◌≤◌, ◌<◌, ◌≡◌, refl, sym, ap, ◌∙◌, arith, some, List, get_elem?,
}
use chromatron.Gfx.Types.{Gfx}
use chromatron.Gfx.Noise.{lerp, noise}

shares : (t m : ℕ) → t ≤ 256 → m * (256 - t) + m * t ≡ m * 256
shares t m h =
    let whole : 256 - t + t ≡ 256 = omega arith in
    sym (mul-add m (256 - t) t) ∙ ap (λ k. m * k) whole

lerp_lem :
    (low high t : ℕ)
    → low < 2 ^ 8
    → high < 2 ^ 8
    → t < 2 ^ 8
    → (lerp low high t ≤ 256 * max low high) × (256 * min low high ≤ lerp low high t)
unfolding lerp
lerp_lem low high t hl hh ht =
    let top_low : low * (256 - t) ≤ max low high * (256 - t) =
      mul-le-mul_right (256 - t) (omega arith) in
    let top_high : high * t ≤ max low high * t = mul-le-mul_right t (omega arith) in
    let low_low : min low high * (256 - t) ≤ low * (256 - t) =
      mul-le-mul_right (256 - t) (omega arith) in
    let low_high : min low high * t ≤ high * t = mul-le-mul_right t (omega arith) in
    (
      omega (arith, top_low, top_high, shares t (max low high) (omega arith)),
      omega (
        arith,
        top_low,
        top_high,
        shares t (max low high) (omega arith),
        low_low,
        low_high,
        shares t (min low high) (omega arith),
      ),
    )

-- Below 65280, where the table has the next value, there is a noise for every number, 256 times a mean of the two values of the table around it.
pub noise-Between :
    (smootherstep : List ℕ) (x low high t : ℕ) (g : Gfx)
    → x < 65280
    → get_elem? smootherstep (x % 256) ≡ some t
    → get_elem? g.noise_table (x / 256) ≡ some low
    → get_elem? g.noise_table (x / 256 + 1) ≡ some high
    → low < 2 ^ 8
    → high < 2 ^ 8
    → t < 2 ^ 8
    → (n : ℕ) × (noise smootherstep x g ≡ some n)
      × (n ≤ 256 * max low high)
      × (256 * min low high ≤ n)
unfolding noise
noise-Between smootherstep x low high t g hx st at next hl hh ht =
    let whole : x / 256 % 2 ^ 8 ≡ x / 256 = omega arith in
    let b = lerp_lem low high t hl hh ht in
    (lerp low high t, rw (whole, st, at, next) refl, b.0, b.1)
