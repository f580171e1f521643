-- ===== src/Gfx/Fader/Countdown.antt =====
-- A measure of the frames that a fade of gfx_lib.c has left.
use chromatron.Base.{
  ℕ, ◌+◌, ◌-◌, ◌%◌, ◌^◌, ◌≤◌, ◌<◌, ◌≡◌, ◌≢◌, Bool, ltb, ◌==◌, if◌then◌else◌, arith, ℕ_discrete,
  refl, sym, subst,
}
use chromatron.Word.{IsWord, sub32, is_neg, magnitude, slt, sdiv, neg32, to_u16}
use chromatron.Util.{abs16}
use chromatron.Gfx.Fader.{Fader, limited, new_step, fade_steps, distance, retarget, move}

pub record IsFader (f : Fader) : Type 0 where
  pub level : f.level < 2 ^ 16
  pub target : f.target < 2 ^ 16
  pub step : f.step < 2 ^ 16

abbrev pub IsSettled : Fader → Type 0
IsSettled f = (f.level ≡ f.target) × (f.step ≡ 0)

-- how far the target is in the direction of the step, around the circle of 2 ^ 16 levels
abbrev pub way_left : Fader → ℕ
way_left f =
    if ltb f.step (2 ^ 15)
    then (f.target + 2 ^ 16 - f.level) % 2 ^ 16
    else (f.level + 2 ^ 16 - f.target) % 2 ^ 16

-- a bound for the frames that are left
unfoldable pub frames_left : Fader → ℕ
frames_left f =
    if f.step == 0
    then (if f.level == f.target then 0 else 65538)
    else if ltb (magnitude (distance f)) (abs16 f.step)
    then 1
    else way_left f + 2

pub move-frames_left : (f : Fader) → IsFader f → f.step ≢ 0 → frames_left (move f) < frames_left f
unfolding frames_left move distance sub32 magnitude abs16
move-frames_left f h nz = ground (arith, h.level, h.target, h.step)

-- A step is limited to the values of an `int16_t` and never 0.
limited_lem :
    (back : Bool) (step : ℕ) → IsWord step → (limited back step ≢ 0) × (limited back step < 2 ^ 16)
unfolding limited to_u16 slt neg32
limited_lem back step h = ground arith

sdiv-IsWord : (a b : ℕ) → IsWord (sdiv a b)
unfolding sdiv neg32
sdiv-IsWord a b = ground arith

pub new_step_lem : (fade diff : ℕ) → (new_step fade diff ≢ 0) × (new_step fade diff < 2 ^ 16)
unfolding new_step
new_step_lem fade diff =
    limited_lem (is_neg diff) (sdiv diff (fade_steps fade)) (sdiv-IsWord diff (fade_steps fade))

pub move-IsFader : (f : Fader) → IsFader f → IsFader (move f)
unfolding move
move-IsFader f h = record {
  level = ground (arith, h.level, h.target, h.step);
  target = ground (arith, h.level, h.target, h.step);
  step = ground (arith, h.level, h.target, h.step);
}

pub frames_left-top : (f : Fader) → IsFader f → frames_left f ≤ 65538
unfolding frames_left
frames_left-top f h = ground (arith, h.level, h.target, h.step)

frames_left-waiting : (f : Fader) → f.step ≡ 0 → f.target ≢ f.level → frames_left f ≡ 65538
unfolding frames_left
frames_left-waiting f z ne = ground arith

frames_left-started : (f : Fader) → IsFader f → f.step ≢ 0 → frames_left f ≤ 65537
unfolding frames_left
frames_left-started f h nz = ground (arith, h.level, h.target, h.step)

-- A fader, and what a frame makes of it.
pub record Counts (f g : Fader) : Type 0 where
  pub fewer : frames_left g ≤ frames_left f - 1
  pub words : IsFader g

running : (f : Fader) → IsFader f → f.step ≢ 0 → Counts f (move f)
running f h nz = record { fewer = omega (arith, move-frames_left f h nz); words = move-IsFader f h }

resting : (f : Fader) → IsFader f → f.step ≡ 0 → f.target ≡ f.level → Counts f (move f)
unfolding move frames_left
resting f h z e =
    let same : move f ≡ f = rw (f.step == 0, z) refl in
    record { fewer = ground arith; words = move-IsFader f h }

-- One frame of any fader takes the measure down, and keeps the widths.
pub frame-Counts :
    (way : ℕ → ℕ) (fade : ℕ) (f : Fader) → IsFader f → Counts f (move (retarget way fade f))
unfolding retarget
frame-Counts way fade f h = elim (ℕ_discrete f.step 0) [
  | no nz ↦
      let kept : retarget way fade f ≡ f = ground arith in
      subst (λ g. Counts f (move g)) (sym kept) (running f h nz)
  | yes z ↦ elim (ℕ_discrete f.target f.level) [
    | yes e ↦
        let kept : retarget way fade f ≡ f = ground arith in
        subst (λ g. Counts f (move g)) (sym kept) (resting f h z e)
    | no ne ↦
        let s : ℕ = new_step fade (way (distance f)) in
        let g : Fader = record f { step = s } in
        let begun : retarget way fade f ≡ g = ground arith in
        let words : IsFader g = record {
          level = h.level;
          target = h.target;
          step = (new_step_lem fade (way (distance f))).1;
        } in
        let step = running g words (new_step_lem fade (way (distance f))).0 in
        subst (λ g. Counts f (move g)) (sym begun)
          (record {
            fewer = omega (
              arith,
              step.fewer,
              frames_left-started g words (new_step_lem fade (way (distance f))).0,
              frames_left-waiting f z ne,
            );
            words = step.words;
          })
  ]
]
