-- ===== src/Util/Averages.antt =====
-- Averages lie between the values that they are made of.
use native.Mathlib.Nat.{mod-eq_of_lt, div-le_of_le-mul, le-div_iff_mul-le}
use chromatron.Base.{
  ℕ, ◌+◌, ◌*◌, ◌/◌, ◌≤◌, ◌<◌, ◌≡◌, ◌∙◌, some, List, [], ◌∷◌, length, All, arith, ap,
}
use chromatron.Util.{total, average}

-- the sum without a width
unfoldable pub sum : List ℕ → ℕ
sum [] = 0
sum (x ∷ xs) = x + sum xs

total-sum : (width s : ℕ) (xs : List ℕ) → s + sum xs < width → total width s xs ≡ s + sum xs
unfolding total sum
total-sum width s [] h = omega arith
total-sum width s (x ∷ xs) h =
    rw (mod-eq_of_lt {n = s + x} {m = width} (omega arith))
      (omega (arith, total-sum width (s + x) xs (omega arith)))

sum-le : (hi : ℕ) (xs : List ℕ) → All (λ x. x ≤ hi) xs → sum xs ≤ length xs * hi
unfolding sum
sum-le hi [] b = omega arith
sum-le hi (x ∷ xs) b = omega (arith, b.0, sum-le hi xs b.1)

le-sum : (lo : ℕ) (xs : List ℕ) → All (λ x. lo ≤ x) xs → length xs * lo ≤ sum xs
unfolding sum
le-sum lo [] b = omega arith
le-sum lo (x ∷ xs) b = omega (arith, b.0, le-sum lo xs b.1)

-- Where the largest possible sum fits its type, the average of data between two bounds is the sum by
-- the count, and between the bounds.
pub average-bounds :
    (width lo hi x : ℕ) (xs : List ℕ)
    → All (λ y. lo ≤ y) (x ∷ xs)
    → All (λ y. y ≤ hi) (x ∷ xs)
    → length (x ∷ xs) * hi < width
    → let mean : ℕ = sum (x ∷ xs) / length (x ∷ xs) in
      (average width (x ∷ xs) ≡ some mean) × (lo ≤ mean) × (mean ≤ hi)
unfolding average
average-bounds width lo hi x xs above below room = (
  ap (λ s. some (s / length (x ∷ xs)))
      (total-sum width 0 (x ∷ xs) (omega (arith, sum-le hi (x ∷ xs) below)) ∙ omega arith),
  (le-div_iff_mul-le (omega arith)).1 (omega (arith, le-sum lo (x ∷ xs) above)),
  div-le_of_le-mul (length (x ∷ xs)) (sum-le hi (x ∷ xs) below),
)
