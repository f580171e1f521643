-- ===== src/Trig/Symmetry.antt =====
-- The waves of src/lib_chromatron/trig.c: the quarters of the circle against the first.
use Prim.Native.Nat.{zero, suc}
use chromatron.Base.{
  ℕ, ◌+◌, ◌-◌, ◌*◌, ◌/◌, ◌%◌, ◌^◌, ◌≤◌, ◌<◌, ◌≡◌, refl, sym, ap, ◌∙◌, Bool, true, false, ◌&&◌, List,
  [], ◌∷◌, ltb, leb, get_or, length, arith, ℕ_discrete,
}
use chromatron.Trig.{sine_lookup, neg16, entry, sine, triangle}

first_quarter : (a : ℕ) → a < 2 ^ 14 → sine a ≡ entry (a / 64)
unfolding sine
first_quarter a h = let b : ltb a 16384 ≡ true = ground arith in rw b refl

second_quarter : (a : ℕ) → 2 ^ 14 ≤ a → a < 2 ^ 15 → sine a ≡ entry (255 - (a / 64 - 256))
unfolding sine
second_quarter a l h =
    let b : ltb a 16384 ≡ false = ground arith in
    let c : ltb a 32768 ≡ true = ground arith in rw (b, c) refl

third_quarter : (a : ℕ) → 2 ^ 15 ≤ a → a < 3 * 2 ^ 14 → sine a ≡ neg16 (entry (a / 64 - 512))
unfolding sine
third_quarter a l h =
    let b : ltb a 16384 ≡ false = ground arith in
    let c : ltb a 32768 ≡ false = ground arith in
    let d : ltb a 49152 ≡ true = ground arith in rw (b, c, d) refl

fourth_quarter : (a : ℕ) → 3 * 2 ^ 14 ≤ a → sine a ≡ neg16 (entry (255 - (a / 64 - 768)))
unfolding sine
fourth_quarter a l =
    let b : ltb a 16384 ≡ false = ground arith in
    let c : ltb a 32768 ≡ false = ground arith in
    let d : ltb a 49152 ≡ false = ground arith in rw (b, c, d) refl

-- A table that rises from `low` on, without two entries that are the same.
abbrev rises : ℕ → List ℕ → Bool
rises low [] = true
rises low (x ∷ xs) = leb low x && rises (x + 1) xs

rises-low :
    (low : ℕ) (xs : List ℕ) (i : ℕ) → rises low xs ≡ true → i < length xs → low ≤ get_or xs i 0
rises-low low [] i r h = absurd (omega arith)
rises-low low (x ∷ xs) zero r h = ground (arith, r)
rises-low low (x ∷ xs) (suc i) r h =
    let first : low ≤ x = ground (arith, r) in
    let rest : rises (x + 1) xs ≡ true = ground (arith, r) in
    omega (arith, first, rises-low (x + 1) xs i rest (omega arith))

rises_between :
    (low : ℕ) (xs : List ℕ) (i j : ℕ)
    → rises low xs ≡ true
    → i < j
    → j < length xs
    → get_or xs i 0 < get_or xs j 0
rises_between low [] i j r lt h = absurd (omega arith)
rises_between low (x ∷ xs) i zero r lt h = absurd (omega arith)
rises_between low (x ∷ xs) zero (suc j) r lt h =
    let rest : rises (x + 1) xs ≡ true = ground (arith, r) in
    omega (arith, rises-low (x + 1) xs j rest (omega arith))
rises_between low (x ∷ xs) (suc i) (suc j) r lt h =
    let rest : rises (x + 1) xs ≡ true = ground (arith, r) in
    rises_between (x + 1) xs i j rest (omega arith) (omega arith)

entry-rises : (i j : ℕ) → i < j → j < 256 → entry i < entry j
unfolding entry
entry-rises i j lt h =
    let low : i % 2 ^ 8 ≡ i = omega arith in
    let high : j % 2 ^ 8 ≡ j = omega arith in
    rw (low, high) (rises_between 0 sine_lookup i j refl lt h)

entry-steps : (i j : ℕ) → i ≤ j → j < 256 → entry i ≤ entry j
entry-steps i j le h = elim (ℕ_discrete i j) [
  | yes same ↦ omega (arith, ap entry same)
  | no differ ↦ omega (arith, entry-rises i j (omega (arith, differ)) h)
]

sine_ends : (sine 0 ≡ 0) × (sine (2 ^ 14 - 1) ≡ 32766)
unfolding sine entry
sine_ends = (refl, refl)

-- The sine rises over the first quarter from 0 at its start to 32766 at its end: it does not fall, and from one of
-- its 256 steps of 64 angles to a later one it gets larger. The second quarter mirrors the first, and the
-- second half is the negative of the first.
pub sine-Symmetric :
    (a : ℕ)
    → a < 2 ^ 14
    → (sine 0 ≡ 0)
      × (sine (2 ^ 14 - 1) ≡ 32766)
      × ((b : ℕ) → b ≤ a → sine b ≤ sine a)
      × ((b : ℕ) → b / 64 < a / 64 → sine b < sine a)
      × (sine (2 ^ 15 - 1 - a) ≡ sine a)
      × (sine (2 ^ 15 + a) ≡ neg16 (sine a))
      × (sine (2 ^ 16 - 1 - a) ≡ neg16 (sine a))
sine-Symmetric a h =
    let e : sine a ≡ entry (a / 64) = first_quarter a h in
    let mirrored : 255 - ((2 ^ 15 - 1 - a) / 64 - 256) ≡ a / 64 = omega arith in
    let turned : (2 ^ 15 + a) / 64 - 512 ≡ a / 64 = omega arith in
    let both : 255 - ((2 ^ 16 - 1 - a) / 64 - 768) ≡ a / 64 = omega arith in
    (
      sine_ends.0,
      sine_ends.1,
      λ b le. omega (
        arith,
        e,
        first_quarter b (omega arith),
        entry-steps (b / 64) (a / 64) (omega arith) (omega arith),
      ),
      λ b lt.
          omega (
            arith,
            e,
            first_quarter b (omega arith),
            entry-rises (b / 64) (a / 64) lt (omega arith),
          ),
      second_quarter (2 ^ 15 - 1 - a) (omega arith) (omega arith) ∙ ap entry mirrored ∙ sym e,
      third_quarter (2 ^ 15 + a) (omega arith) (omega arith)
          ∙ ap (λ k. neg16 (entry k)) turned
          ∙ ap neg16 (sym e),
      fourth_quarter (2 ^ 16 - 1 - a) (omega arith)
          ∙ ap (λ k. neg16 (entry k)) both
          ∙ ap neg16 (sym e),
    )

-- The second half of the triangle is the negative of the first.
pub triangle-Symmetric : (a : ℕ) → a < 2 ^ 15 → (triangle (2 ^ 15 + a) ≡ neg16 (triangle a))
unfolding triangle neg16
triangle-Symmetric a h = ground arith
