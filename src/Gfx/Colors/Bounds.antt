-- ===== src/Gfx/Colors/Bounds.antt =====
-- The colors of gfx_lib.c against the brightness.
use native.Mathlib.Nat.{mul-le-mul_right, mul-le-mul, add-mul}
use chromatron.Base.{
  ℕ, ◌+◌, ◌-◌, ◌*◌, ◌/◌, ◌^◌, ◌≤◌, ◌<◌, ◌≡◌, ap, ltb, leb, arith, true, false, dec_lt,
}
use chromatron.Gfx.Colors.{pure_color, scaled, at_least, hsv_to_rgb, hsv_to_rgbw}

-- The three parts of a color are one whole, and each is part of it.
pure_color_lem :
    (h : ℕ) → h < 2 ^ 16 → (pure_color h).0 + (pure_color h).1 + (pure_color h).2 ≡ 65535
unfolding pure_color
pure_color_lem h lt = elim (dec_lt 21845 h) [
  | no one ↦ let b : leb h 21845 ≡ true = ground arith in rw b (omega arith)
  | yes more ↦
      let b : leb h 21845 ≡ false = ground arith in
      elim (dec_lt 43690 h) [
        | no two ↦ let c : leb h 43690 ≡ true = ground arith in rw (b, c) (omega arith)
        | yes three ↦ let c : leb h 43690 ≡ false = ground arith in rw (b, c) (omega arith)
      ]
]

scaled_lem : (a v : ℕ) → a ≤ 65535 → v < 2 ^ 16 → scaled a v ≡ a * v / 65536
unfolding scaled
scaled_lem a v ha hv =
    let small : a * v ≤ 65535 * 65535 = mul-le-mul {n₂ = 65535} {m₂ = 65535} ha (omega arith) in
    omega (arith, small)

-- Three parts of a whole, scaled, are at most the whole scaled.
parts_lem : (a b c s : ℕ) → a * s / 65536 + b * s / 65536 + c * s / 65536 ≤ (a + b + c) * s / 65536
parts_lem a b c s = omega (arith, add-mul (a + b) c s, add-mul a b s)

share_lem : (a v : ℕ) → a ≤ 65535 → a * v / 65536 ≤ v
share_lem a v h = omega (arith, mul-le-mul_right v h)

channel_lem :
    (floor a v : ℕ)
    → floor ≤ 65535
    → a ≤ 65535
    → v < 2 ^ 16
    → (floor * v / 65536 ≤ scaled (at_least floor a) v) × (scaled (at_least floor a) v ≤ v)
unfolding at_least
channel_lem floor a v hf ha hv = elim (dec_lt a floor) [
  | yes low ↦
      let b : ltb a floor ≡ true = ground arith in
      rw b (
        omega (arith, scaled_lem floor v hf hv),
        omega (arith, scaled_lem floor v hf hv, share_lem floor v hf),
      )
  | no high ↦
      let b : ltb a floor ≡ false = ground arith in
      let more : floor * v ≤ a * v = mul-le-mul_right v (omega arith) in
      rw b (
        omega (arith, scaled_lem a v ha hv, more),
        omega (arith, scaled_lem a v ha hv, share_lem a v ha),
      )
]

-- Every channel is between the white part, `65535 - s` of the value, and the value. Without saturation
-- all three are the same.
pub hsv_to_rgb-bounds :
    (h s v : ℕ)
    → h < 2 ^ 16
    → s < 2 ^ 16
    → v < 2 ^ 16
    → let (r, g, b) = hsv_to_rgb h s v in
      let white : ℕ = (65535 - s) * v / 65536 in
      ((white ≤ r) × (r ≤ v)) × ((white ≤ g) × (g ≤ v)) × ((white ≤ b) × (b ≤ v))
unfolding hsv_to_rgb
hsv_to_rgb-bounds h s v hh hs hv =
    let whole = pure_color_lem h hh in
    (
      channel_lem (65535 - s) (pure_color h).0 v (omega arith) (omega (arith, whole)) hv,
      channel_lem (65535 - s) (pure_color h).1 v (omega arith) (omega (arith, whole)) hv,
      channel_lem (65535 - s) (pure_color h).2 v (omega arith) (omega (arith, whole)) hv,
    )

four_lem :
    (a b c d v : ℕ)
    → a + b + c + d ≤ 65535
    → v < 2 ^ 16
    → scaled a v + scaled b v + scaled c v + scaled d v ≤ v
four_lem a b c d v h hv =
    let all : (a + b + c + d) * v / 65536 ≤ v = share_lem (a + b + c + d) v h in
    omega (
      arith,
      scaled_lem a v (omega arith) hv,
      scaled_lem b v (omega arith) hv,
      scaled_lem c v (omega arith) hv,
      scaled_lem d v (omega arith) hv,
      parts_lem a b c v,
      add-mul (a + b + c) d v,
      add-mul (a + b) c v,
      add-mul a b v,
      all,
    )

-- The four channels together are at most the value.
pub hsv_to_rgbw-bounds :
    (h s v : ℕ)
    → h < 2 ^ 16
    → s < 2 ^ 16
    → v < 2 ^ 16
    → let (r, g, b, w) = hsv_to_rgbw h s v in (r + g + b + w ≤ v)
unfolding hsv_to_rgbw
hsv_to_rgbw-bounds h s v hh hs hv =
    let whole = pure_color_lem h hh in
    let r : ℕ = (pure_color h).0 in
    let g : ℕ = (pure_color h).1 in
    let b : ℕ = (pure_color h).2 in
    let r' : scaled r s ≡ r * s / 65536 = scaled_lem r s (omega (arith, whole)) hs in
    let g' : scaled g s ≡ g * s / 65536 = scaled_lem g s (omega (arith, whole)) hs in
    let b' : scaled b s ≡ b * s / 65536 = scaled_lem b s (omega (arith, whole)) hs in
    let colored : scaled r s + scaled g s + scaled b s ≤ s = omega (
      arith,
      r',
      g',
      b',
      parts_lem r g b s,
      ap (λ k. k * s / 65536) whole,
      share_lem 65535 s (omega arith),
    ) in
    four_lem (scaled r s) (scaled g s) (scaled b s) (65535 - s) v (omega (arith, colored)) hv
