-- ===== src/Trig/Tests.antt =====
-- Tests of the waves, and their symmetry at a concrete angle.
use chromatron.Base.{ℕ, ◌/◌, ◌<◌, ◌-◌, ◌+◌, ◌^◌, ◌≤◌, ◌≡◌, refl, arith}
use chromatron.Trig.{neg16, entry, sine, cosine, triangle}
use chromatron.Trig.Symmetry.{sine-Symmetric}

waves : (sine 0 ≡ 0) × (sine 16384 ≡ 32766) × (cosine 0 ≡ 32766) × (sine 40000 ≡ neg16 (sine 7232))
unfolding sine entry cosine neg16
waves = (refl, refl, refl, refl)

-- The triangle overflows at its peak: 32768 is the pattern of -32768.
triangle_peak : (triangle 16383 ≡ 32766) × (triangle 16384 ≡ 2 ^ 15) × (triangle 16385 ≡ 32766)
unfolding triangle
triangle_peak = (refl, refl, refl)

sine-Symmetric_example :
    (sine 0 ≡ 0)
    × (sine (2 ^ 14 - 1) ≡ 32766)
    × ((b : ℕ) → b ≤ 5000 → sine b ≤ sine 5000)
    × ((b : ℕ) → b / 64 < 5000 / 64 → sine b < sine 5000)
    × (sine (2 ^ 15 - 1 - 5000) ≡ sine 5000)
    × (sine (2 ^ 15 + 5000) ≡ neg16 (sine 5000))
    × (sine (2 ^ 16 - 1 - 5000) ≡ neg16 (sine 5000))
sine-Symmetric_example = sine-Symmetric 5000 (omega arith)
