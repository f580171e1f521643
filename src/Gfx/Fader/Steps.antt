-- ===== src/Gfx/Fader/Steps.antt =====
-- The steps of src/lib_chromatron/gfx_lib.c's faders: a part of the distance, in its direction.
use chromatron.Base.{
  ℕ, ◌+◌, ◌-◌, ◌/◌, ◌*◌, ◌%◌, ◌^◌, ◌≤◌, ◌<◌, ◌≡◌, ◌≢◌, ◌==◌, if◌then◌else◌, true, false, leb, refl,
  dec_lt, ℕ_discrete, arith,
}
use chromatron.Word.{sub32, is_neg, magnitude, neg32, add32, to_u16, slt, sdiv}
use chromatron.Gfx.Fader.{Fader, fade_steps, new_step, limited, distance, shortest}
use chromatron.Gfx.Fader.Countdown.{IsFader}
use native.Mathlib.Nat.{div-lt_iff_lt-mul, mul-le-mul_left, lt-mul-div-succ, div-le_self}

pub steps_two : (fade : ℕ) → 2 ≤ fade_steps fade
unfolding fade_steps
steps_two fade = ground arith

pub steps_few : (fade : ℕ) → fade < 2 ^ 16 → fade_steps fade < 2 ^ 16
unfolding fade_steps
steps_few fade h = ground arith

-- The size of a step for the distance `d`.
abbrev pub part : ℕ → ℕ → ℕ
part fade d = if d / fade_steps fade == 0 then 1 else d / fade_steps fade

quotient_small : (d n : ℕ) → d < 2 ^ 16 → 2 ≤ n → d / n < 2 ^ 15
quotient_small d n hd hn =
    (div-lt_iff_lt-mul {k = n} (omega arith)).1 (omega (arith, mul-le-mul_left (2 ^ 15) hn))

pub part_long : (fade d : ℕ) → 0 < d → d < (2 * fade_steps fade) * part fade d
part_long fade d pos =
    let n : ℕ = fade_steps fade in
    elim (ℕ_discrete (d / n) 0) [
      | yes z ↦
          rw (d / n == 0, z)
            (omega (
              arith,
              (div-lt_iff_lt-mul {k = n} {x = d} {y = 1} (omega (arith, steps_two fade))).0
                  (omega arith),
            ))
      | no nz ↦
          let q : ℕ = d / n in
          let same : part fade d ≡ q = ground arith in
          let grow : n * (q + 1) ≤ n * (q + q) = mul-le-mul_left n (omega arith) in
          rw same (omega (arith, grow, lt-mul-div-succ d {b = n} (omega (arith, steps_two fade))))
    ]

sdiv-up : (d n : ℕ) → d < 2 ^ 31 → 0 < n → n < 2 ^ 31 → sdiv d n ≡ d / n
unfolding sdiv magnitude neg32
sdiv-up d n hd pos hn =
    let low_d : leb (2 ^ 31) d ≡ false = ground arith in
    let low_n : leb (2 ^ 31) n ≡ false = ground arith in
    rw (low_d, low_n) (omega (arith, div-le_self d n))

sdiv-down :
    (d n : ℕ) → 0 < d → d < 2 ^ 31 → 0 < n → n < 2 ^ 31 → sdiv (2 ^ 32 - d) n ≡ neg32 (d / n)
unfolding sdiv magnitude
sdiv-down d n pd hd pos hn =
    let high : leb (2 ^ 31) (2 ^ 32 - d) ≡ true = ground arith in
    let low_n : leb (2 ^ 31) n ≡ false = ground arith in
    let same : 2 ^ 32 - (2 ^ 32 - d) ≡ d = omega arith in rw (high, low_n, same) refl

limited_up : (q : ℕ) → q < 2 ^ 15 → limited false q ≡ (if q == 0 then 1 else q)
unfolding limited slt to_u16 neg32
limited_up q h = ground arith

limited_down : (q : ℕ) → q < 2 ^ 15 → limited true (neg32 q) ≡ 2 ^ 16 - (if q == 0 then 1 else q)
unfolding limited slt to_u16 neg32
limited_down q h = ground arith

pub new_step_up : (fade d : ℕ) → fade < 2 ^ 16 → d < 2 ^ 16 → 0 < d → new_step fade d ≡ part fade d
unfolding new_step
new_step_up fade d hf hd pos =
    let few = steps_few fade hf in
    let two = steps_two fade in
    let low : is_neg d ≡ false = ground arith in
    let same : sdiv d (fade_steps fade) ≡ d / fade_steps fade =
      sdiv-up d (fade_steps fade) (omega arith) (omega (arith, two)) (omega (arith, few)) in
    rw (low, same) (limited_up (d / fade_steps fade) (quotient_small d (fade_steps fade) hd two))

pub new_step_down :
    (fade d : ℕ)
    → fade < 2 ^ 16
    → d < 2 ^ 16
    → 0 < d
    → new_step fade (2 ^ 32 - d) ≡ 2 ^ 16 - part fade d
unfolding new_step
new_step_down fade d hf hd pos =
    let few = steps_few fade hf in
    let two = steps_two fade in
    let high : is_neg (2 ^ 32 - d) ≡ true = ground arith in
    let same : sdiv (2 ^ 32 - d) (fade_steps fade) ≡ neg32 (d / fade_steps fade) =
      sdiv-down d (fade_steps fade) pos (omega arith) (omega (arith, two)) (omega (arith, few)) in
    rw (high, same) (limited_down (d / fade_steps fade) (quotient_small d (fade_steps fade) hd two))

pub part-small : (fade d : ℕ) → d < 2 ^ 16 → part fade d < 2 ^ 15
part-small fade d h = ground (arith, quotient_small d (fade_steps fade) h (steps_two fade))

pub part-positive : (fade d : ℕ) → 0 < part fade d
part-positive fade d = ground arith

-- The two directions of a distance, as a pattern and as the way around the circle.
pub data Way (f : Fader) (diff : ℕ) : Type 0 where
  ahead :
      (d : ℕ)
      → diff ≡ d
      → 0 < d
      → d < 2 ^ 16
      → (f.target + 2 ^ 16 - f.level) % 2 ^ 16 ≡ d
      → Way f diff
  behind :
      (d : ℕ)
      → diff ≡ 2 ^ 32 - d
      → 0 < d
      → d < 2 ^ 16
      → (f.level + 2 ^ 16 - f.target) % 2 ^ 16 ≡ d
      → Way f diff

pub level_way : (f : Fader) → IsFader f → f.target ≢ f.level → Way f (distance f)
unfolding distance sub32
level_way f h ne = elim (dec_lt f.level f.target) [
  | yes lt ↦
      ahead (f.target - f.level) (omega (arith, h.level, h.target)) (omega arith)
        (omega (arith, h.target)) (omega (arith, h.target))
  | no ge ↦
      behind (f.level - f.target) (omega (arith, h.level, h.target)) (omega (arith, ne))
        (omega (arith, h.level)) (omega (arith, h.level))
]

-- It is at most half of the circle.
pub hue_near : (f : Fader) → IsFader f → magnitude (shortest (distance f)) ≤ 2 ^ 15
unfolding shortest distance sub32 magnitude add32
hue_near f h = ground (arith, h.level, h.target)

pub hue_way : (f : Fader) → IsFader f → f.target ≢ f.level → Way f (shortest (distance f))
unfolding shortest distance sub32 magnitude add32
hue_way f h ne = elim (dec_lt f.level f.target) [
  | yes lt ↦ elim (dec_lt 32768 (f.target - f.level)) [
    | yes far ↦
        behind (f.level + 65536 - f.target) (ground (arith, h.level, h.target))
          (omega (arith, h.target)) (omega arith) (omega arith)
    | no near ↦
        ahead (f.target - f.level) (ground (arith, h.level, h.target)) (omega arith)
          (omega (arith, h.target)) (omega (arith, h.target))
  ]
  | no ge ↦ elim (dec_lt 32768 (f.level - f.target)) [
    | yes far ↦
        ahead (f.target + 65536 - f.level) (ground (arith, h.level, h.target))
          (omega (arith, h.level)) (omega arith) (omega arith)
    | no near ↦
        behind (f.level - f.target) (ground (arith, h.level, h.target, ne)) (omega (arith, ne))
          (omega (arith, h.level)) (omega (arith, h.level))
  ]
]
