-- ===== src/Gfx/Fader.antt =====
-- The faders of src/lib_chromatron/gfx_lib.c. One level that is faded is the level, its target and the
-- step of a frame, an `int16_t` by its bit pattern below 2 ^ 16. An `int32_t` is its pattern below 2 ^ 32.
pub mod Countdown
pub mod Steps
pub mod Begun
pub mod Fades
use chromatron.Base.{ℕ, ◌+◌, ◌/◌, ◌%◌, ◌^◌, Bool, not, ◌&&◌, ltb, leb, ◌==◌, if◌then◌else◌}
use chromatron.Word.{add32, sub32, neg32, is_neg, magnitude, slt, sdiv, to_u16}
use chromatron.Util.{abs16}

-- `hue[i]`, `target_hue[i]` and `hue_step[i]`, and their like for the others
pub record Fader : Type 0 where
  pub level : ℕ
  pub target : ℕ
  pub step : ℕ

abbrev pub fader_rate : ℕ
fader_rate = 20

-- how many frames a fade takes, at least 2
unfoldable pub fade_steps : ℕ → ℕ
fade_steps fade = let steps : ℕ = fade / fader_rate in if leb steps 1 then 2 else steps

-- the limits of a step, which is never 0
unfoldable pub limited : Bool → ℕ → ℕ
limited back step = to_u16 (
    if slt 32768 step
    then 32768
    else if slt step (neg32 32767)
    then neg32 32767
    else if step == 0
    then (if back then neg32 1 else 1)
    else step)

-- the step of a frame for the distance `diff`
unfoldable pub new_step : ℕ → ℕ → ℕ
new_step fade diff = limited (is_neg diff) (sdiv diff (fade_steps fade))

unfoldable pub distance : Fader → ℕ
distance f = sub32 f.target f.level

-- the way around the hue circle where that is shorter
unfoldable pub shortest : ℕ → ℕ
shortest diff =
    if ltb 32768 (magnitude diff)
    then (if is_neg diff then add32 diff 65536 else sub32 diff 65536)
    else diff

-- the new step of a level that has none and is not at its target
unfoldable pub retarget : (ℕ → ℕ) → ℕ → Fader → Fader
retarget way fade f =
    if f.step == 0 && not (f.target == f.level)
    then record f { step = new_step fade (way (distance f)) }
    else f

-- the step itself: it ends at the target where that is nearer than the step
unfoldable pub move : Fader → Fader
move f =
    if f.step == 0
    then f
    else if ltb (magnitude (distance f)) (abs16 f.step)
    then record f { level = f.target; step = 0 }
    else record f { level = (f.level + f.step) % 2 ^ 16 }

-- one frame of a hue, and of a saturation or a value
unfoldable pub fade_hue : ℕ → Fader → Fader
fade_hue fade f = move (retarget shortest fade f)

unfoldable pub fade_level : ℕ → Fader → Fader
fade_level fade f = move (retarget (λ diff. diff) fade f)
