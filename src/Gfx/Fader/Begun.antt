-- ===== src/Gfx/Fader/Begun.antt =====
-- The step that the first frame of a fade of gfx_lib.c sets, against the way that is left.
use chromatron.Base.{ℕ, ◌-◌, ◌*◌, ◌^◌, ◌<◌, ◌≡◌, ◌≢◌, ap, sym, subst, ◌∙◌, arith}
use chromatron.Util.{abs16}
use chromatron.Word.{magnitude}
use chromatron.Gfx.Fader.{Fader, fade_steps, new_step}
use chromatron.Gfx.Fader.Countdown.{IsFader, way_left}
use chromatron.Gfx.Fader.Steps.{
  part, part_long, new_step_up, new_step_down, part-small, part-positive, Way, ahead, behind,
}

abbrev pub stride : Fader → ℕ
stride f = abs16 f.step

-- What a fader is after the first frame of a fade: its step is a part of the way that is left.
pub record IsBegun (fade : ℕ) (f : Fader) : Type 0 where
  pub widths : IsFader f
  pub on : f.step ≢ 0
  pub near : way_left f < (2 * fade_steps fade) * stride f

pub begun :
    (fade diff : ℕ) (f : Fader)
    → fade < 2 ^ 16
    → IsFader f
    → Way f diff
    → IsBegun fade (record f { step = new_step fade diff })
unfolding abs16
begun fade diff f hf h (ahead d e pos small way) =
    let s : ℕ = part fade d in
    let same : new_step fade diff ≡ s = ap (new_step fade) e ∙ new_step_up fade d hf small pos in
    let low : s < 2 ^ 15 = part-small fade d small in
    let left : way_left (record f { step = s }) ≡ d = ground (arith, way, low) in
    let size : abs16 s ≡ s = ground (arith, low) in
    subst (λ k. IsBegun fade (record f { step = k })) (sym same)
      (record {
        widths = record { level = h.level; target = h.target; step = omega (arith, low) };
        on = omega (arith, part-positive fade d);
        near = rw (left, size) (part_long fade d pos);
      })
begun fade diff f hf h (behind d e pos small way) =
    let s : ℕ = part fade d in
    let same : new_step fade diff ≡ 2 ^ 16 - s =
      ap (new_step fade) e ∙ new_step_down fade d hf small pos in
    let low : s < 2 ^ 15 = part-small fade d small in
    let some : 0 < s = part-positive fade d in
    let left : way_left (record f { step = 2 ^ 16 - s }) ≡ d = ground (arith, way, low) in
    let size : abs16 (2 ^ 16 - s) ≡ s = ground (arith, low, some) in
    subst (λ k. IsBegun fade (record f { step = k })) (sym same)
      (record {
        widths = record { level = h.level; target = h.target; step = omega (arith, some) };
        on = omega (arith, low);
        near = rw (left, size) (part_long fade d pos);
      })

-- The way left when a fade begins is the size of the distance that its step was made for.
pub begun_way :
    (fade diff : ℕ) (f : Fader)
    → fade < 2 ^ 16
    → Way f diff
    → way_left (record f { step = new_step fade diff }) ≡ magnitude diff
unfolding magnitude
begun_way fade diff f hf (ahead d e pos small way) =
    let s : ℕ = part fade d in
    let same : new_step fade diff ≡ s = ap (new_step fade) e ∙ new_step_up fade d hf small pos in
    let low : s < 2 ^ 15 = part-small fade d small in rw (same, e) (ground (arith, way, low))
begun_way fade diff f hf (behind d e pos small way) =
    let s : ℕ = part fade d in
    let same : new_step fade diff ≡ 2 ^ 16 - s =
      ap (new_step fade) e ∙ new_step_down fade d hf small pos in
    let low : s < 2 ^ 15 = part-small fade d small in
    let some : 0 < s = part-positive fade d in rw (same, e) (ground (arith, way, low, some))
