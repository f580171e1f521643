-- ===== src/Util/Interpolation.antt =====
-- Linear interpolation stays between its ends.
use native.Mathlib.Nat.{mul-le-mul, mul-le-mul_right, div-le_of_le-mul}
use chromatron.Base.{ℕ, ◌+◌, ◌-◌, ◌*◌, ◌/◌, ◌%◌, ◌^◌, ◌≤◌, ◌<◌, ◌≡◌, arith}
use chromatron.Util.{linear_interp}

-- For x0 ≤ x ≤ x1 with x0 < x1 and y0 ≤ y1, all of 16 bits, util_u16_linear_interp gives the point at x of the line through
-- the two points, rounded down, computed without wrapping around, and it is at most y1.
pub linear_interp_lem :
    (x x0 y0 x1 y1 : ℕ)
    → x0 ≤ x
    → x ≤ x1
    → x0 < x1
    → x1 < 2 ^ 16
    → y0 ≤ y1
    → y1 < 2 ^ 16
    → (linear_interp x x0 y0 x1 y1 ≡ y0 + (x - x0) * (y1 - y0) / (x1 - x0))
      × (linear_interp x x0 y0 x1 y1 ≤ y1)
unfolding linear_interp
linear_interp_lem x x0 y0 x1 y1 a b c d e f =
    let xd : (x1 + 2 ^ 16 - x0) % 2 ^ 16 ≡ x1 - x0 = omega arith in
    let yd : (y1 + 2 ^ 16 - y0) % 2 ^ 16 ≡ y1 - y0 = omega arith in
    let xs : (x + 2 ^ 32 - x0) % 2 ^ 32 ≡ x - x0 = omega arith in
    let small : (x - x0) * (y1 - y0) ≤ 65535 * 65535 =
      mul-le-mul {n₂ = 65535} {m₂ = 65535} (omega arith) (omega arith) in
    let within : (x - x0) * (y1 - y0) / (x1 - x0) ≤ y1 - y0 =
      div-le_of_le-mul (x1 - x0) (mul-le-mul_right (y1 - y0) (omega arith)) in
    let whole : (x - x0) * (y1 - y0) % 2 ^ 32 ≡ (x - x0) * (y1 - y0) = omega (arith, small) in
    rw (xd, yd, xs, whole) (ground (arith, within))
