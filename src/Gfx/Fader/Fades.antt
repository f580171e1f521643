-- ===== src/Gfx/Fader/Fades.antt =====
-- The fades of gfx_lib.c over many frames.
use Prim.Native.Nat.{zero, suc}
use chromatron.Base.{
  ℕ, ◌+◌, ◌-◌, ◌*◌, ◌^◌, ◌≤◌, ◌<◌, ◌≡◌, ◌≢◌, refl, ap, sym, subst, ◌∙◌, dec_lt, ℕ_discrete, arith,
}
use chromatron.Word.{sub32, magnitude}
use chromatron.Util.{abs16}
use chromatron.Gfx.Fader.{Fader, fade_steps, new_step, distance, retarget, move}
use chromatron.Gfx.Fader.Countdown.{
  IsFader, IsSettled, frames_left, way_left, move-IsFader, frames_left-top, frame-Counts,
}
use chromatron.Gfx.Fader.Steps.{Way}
use chromatron.Gfx.Fader.Begun.{stride, begun}
use native.Mathlib.Nat.{suc-mul}

abbrev pub iterate {ℓ} : {A : Type ℓ} → ℕ → (A → A) → A → A
iterate zero f a = a
iterate (suc n) f a = iterate n f (f a)

iterate-add {ℓ} :
    {A : Type ℓ} (m n : ℕ) (f : A → A) (a : A) → iterate (m + n) f a ≡ iterate n f (iterate m f a)
iterate-add zero n f a = let none : 0 + n ≡ n = omega arith in ap (λ k. iterate k f a) none
iterate-add (suc m) n f a =
    let out : suc m + n ≡ suc (m + n) = omega arith in
    ap (λ k. iterate k f a) out ∙ iterate-add m n f (f a)

-- What a fader is at the end of its fade.
abbrev pub IsAtTarget : Fader → Fader → Type 0
IsAtTarget f g = (g.level ≡ f.target) × (g.target ≡ f.target) × (g.step ≡ 0)

settled : (f : Fader) → frames_left f ≤ 0 → IsSettled f
unfolding frames_left
settled f h = ground arith

pub settled-after :
    (way : ℕ → ℕ) (fade n : ℕ) (f : Fader)
    → IsFader f
    → frames_left f ≤ n
    → IsSettled (iterate n (λ g. move (retarget way fade g)) f)
settled-after way fade zero f h le = settled f le
settled-after way fade (suc n) f h le =
    let next = frame-Counts way fade f h in
    settled-after way fade n (move (retarget way fade f)) next.words (omega (arith, next.fewer))

move-snaps : (f : Fader) → f.step ≢ 0 → magnitude (distance f) < stride f → IsSettled (move f)
unfolding move
move-snaps f nz h = ground arith

-- Where the target is farther than the step, the way left gets shorter by the step, or the step takes
-- the level past the target and around the end of its range.
move-walks :
    (f : Fader)
    → IsFader f
    → f.step ≢ 0
    → stride f ≤ magnitude (distance f)
    → stride f ≤ way_left f
    → ((move f).step ≡ f.step) × (way_left (move f) + stride f ≡ way_left f)
unfolding move distance sub32 magnitude abs16
move-walks f h nz far long = ground (arith, h.level, h.target, h.step)

move-passes :
    (f : Fader)
    → IsFader f
    → f.step ≢ 0
    → stride f ≤ magnitude (distance f)
    → way_left f < stride f
    → ((move f).step ≡ f.step) × (magnitude (distance (move f)) < stride f)
unfolding move distance sub32 magnitude abs16
move-passes f h nz far short = ground (arith, h.level, h.target, h.step)

module _ (way : ℕ → ℕ) (fade : ℕ) where
  abbrev pub frame : Fader → Fader
  frame f = move (retarget way fade f)

  frame-rests : (f : Fader) → IsSettled f → frame f ≡ f
  unfolding retarget move
  frame-rests f e = ground (arith, e)

  frame-moves : (f : Fader) → f.step ≢ 0 → frame f ≡ move f
  unfolding retarget
  frame-moves f nz = let kept : retarget way fade f ≡ f = ground arith in ap move kept

  -- A fade at its end stays there.
  rests : (n : ℕ) (f : Fader) → IsSettled f → IsSettled (iterate n frame f)
  rests zero f e = e
  rests (suc n) f e =
      subst (λ g. IsSettled (iterate n frame g)) (sym (frame-rests f e)) (rests n f e)

  -- A fade whose way is shorter than `k` steps ends in one frame more.
  ends :
      (k : ℕ) (f : Fader)
      → IsFader f
      → f.step ≢ 0
      → way_left f < k * stride f
      → IsSettled (iterate (suc k) frame f)
  ends zero f h nz near = absurd (omega arith)
  ends (suc k) f h nz near =
      subst (λ g. IsSettled (iterate (suc k) frame g)) (sym (frame-moves f nz))
        (elim (dec_lt (magnitude (distance f)) (stride f)) [
          | yes snap ↦ rests (suc k) (move f) (move-snaps f nz snap)
          | no far ↦ elim (dec_lt (way_left f) (stride f)) [
            | yes short ↦
                let (same, over) = move-passes f h nz (omega arith) short in
                let on : (move f).step ≢ 0 = λ z. nz (sym same ∙ z) in
                subst (λ g. IsSettled (iterate k frame g)) (sym (frame-moves (move f) on))
                  (rests k (move (move f)) (
                    move-snaps (move f) on
                      (subst (λ w. magnitude (distance (move f)) < abs16 w) (sym same) over)))
            | no long ↦
                let (same, less) = move-walks f h nz (omega arith) (omega arith) in
                let on : (move f).step ≢ 0 = λ z. nz (sym same ∙ z) in
                let grow : suc k * stride f ≡ k * stride f + stride f = suc-mul k (stride f) in
                let left : way_left (move f) < k * stride f = omega (arith, less, grow, near) in
                ends k (move f) (move-IsFader f h) on
                  (subst (λ w. way_left (move f) < k * abs16 w) (sym same) left)
          ]
        ])

  pub fade-Settles :
      (f : Fader)
      → fade < 2 ^ 16
      → IsFader f
      → f.step ≡ 0
      → (f.target ≢ f.level → Way f (way (distance f)))
      → IsSettled (iterate (suc (2 * fade_steps fade)) frame f)
  unfolding retarget
  fade-Settles f hf h z which = elim (ℕ_discrete f.target f.level) [
    | yes e ↦ rests (suc (2 * fade_steps fade)) f (sym e, z)
    | no ne ↦
        let g : Fader = record f { step = new_step fade (way (distance f)) } in
        let b = begun fade (way (distance f)) f hf h (which ne) in
        let opens : retarget way fade f ≡ g = ground (arith, z, ne) in
        subst (λ k. IsSettled (iterate (2 * fade_steps fade) frame k))
          (frame-moves g b.on ∙ sym (ap move opens))
          (ends (2 * fade_steps fade) g b.widths b.on b.near)
  ]

  frame-target : (f : Fader) → (frame f).target ≡ f.target
  unfolding retarget move
  frame-target f = ground arith

  target-kept : (n : ℕ) (f : Fader) → (iterate n frame f).target ≡ f.target
  target-kept zero f = refl
  target-kept (suc n) f = target-kept n (frame f) ∙ frame-target f

  at_target : (n : ℕ) (f : Fader) → IsSettled (iterate n frame f) → IsAtTarget f (iterate n frame f)
  at_target n f e = (e.0 ∙ target-kept n f, target-kept n f, e.1)

  -- Any fader is at its target after 2 ^ 16 + 2 frames.
  pub ends_anyway : (n : ℕ) (f : Fader) → IsFader f → 65538 ≤ n → IsAtTarget f (iterate n frame f)
  ends_anyway n f h le =
      at_target n f (settled-after way fade n f h (omega (arith, frames_left-top f h)))

  -- A fader that starts is at its target after twice the frames of its fade and one more.
  pub ends_in_time :
      (n : ℕ) (f : Fader)
      → fade < 2 ^ 16
      → IsFader f
      → f.step ≡ 0
      → (f.target ≢ f.level → Way f (way (distance f)))
      → 2 * fade_steps fade + 1 ≤ n
      → IsAtTarget f (iterate n frame f)
  ends_in_time n f hf h z which le =
      let m : ℕ = suc (2 * fade_steps fade) in
      let split : m + (n - m) ≡ n = omega arith in
      at_target n f (
        subst IsSettled (sym (iterate-add m (n - m) frame f) ∙ ap (λ k. iterate k frame f) split)
          (rests (n - m) (iterate m frame f) (fade-Settles f hf h z which)))

-- The dimmer gets its steps elsewhere: without one it is at its target.
abbrev pub IsDriven : Fader → Type 0
IsDriven f = f.step ≡ 0 → f.target ≡ f.level

pub move-IsDriven : (f : Fader) → IsDriven f → IsDriven (move f)
unfolding move
move-IsDriven f h = ground (arith, h)

driven-frames :
    (n : ℕ) (f : Fader) → IsDriven f → iterate n (frame (λ diff. diff) 0) f ≡ iterate n move f
unfolding retarget
driven-frames zero f h = refl
driven-frames (suc n) f h =
    let kept : retarget (λ diff. diff) 0 f ≡ f = ground (arith, h) in
    ap (λ g. iterate n (frame (λ diff. diff) 0) (move g)) kept
    ∙ driven-frames n (move f) (move-IsDriven f h)

pub dimmer_ends :
    (n : ℕ) (f : Fader) → IsFader f → IsDriven f → 65538 ≤ n → IsAtTarget f (iterate n move f)
dimmer_ends n f h d le =
    subst (IsAtTarget f) (driven-frames n f d) (ends_anyway (λ diff. diff) 0 n f h le)
