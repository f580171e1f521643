-- ===== src/Base/Sorting.antt =====
-- Bubble sort by any test for a pair in the wrong order: it ends, its result is in order, and it holds
-- what was there. src/sapphireos/util.c and src/sapphireos/kvdb.c have the same loop.
use Prim.Native.Nat.{ℕ, zero, suc, ◌+◌, ◌*◌, ◌≤◌, ◌<◌}
use mathlib.Core.Path.{◌≡◌, refl, ◌∙◌, sym, subst, ap}
use mathlib.Core.Logic.{inl, inr}
use mathlib.Core.Bool.{Bool, true, false}
use mathlib.Core.Option.{Option, none, some}
use mathlib.Core.List.{List, [], ◌∷◌}
use native.Mathlib.Omega.{arith}
use chromatron.Base.Tests.{if◌then◌else◌, Bool-cases}
use chromatron.Base.Lists.{length}

-- how many elements pass a test
unfoldable pub count {ℓ} : {A : Type ℓ} → (A → Bool) → List A → ℕ
count p [] = 0
count p (x ∷ xs) = (if p x then 1 else 0) + count p xs

pub count-le {ℓ} : {A : Type ℓ} (p : A → Bool) (xs : List A) → count p xs ≤ length xs
unfolding count
count-le p [] = omega arith
count-le p (x ∷ xs) = ground (arith, count-le p xs)

unfoldable pub fold {ℓ} : {A B : Type ℓ} → (A → B → B) → B → List A → B
fold f z [] = z
fold f z (x ∷ xs) = f x (fold f z xs)

-- `out x y` is the test that swaps `x` and the `y` behind it.
module _ {ℓ} {A : Type ℓ} (out : A → A → Bool) where
  -- the rest of one sweep, with `array[i - 1]` and what stands from `i` on
  unfoldable pub sweep : A → List A → List A × Bool
  sweep x [] = (x ∷ [], false)
  sweep x (y ∷ ys) = elim (out x y) [
    | true ↦ (y ∷ (sweep x ys).0, true)
    | false ↦ (x ∷ (sweep y ys).0, (sweep y ys).1)
  ]

  unfoldable pub sweep_all : List A → List A × Bool
  sweep_all [] = ([], false)
  sweep_all (x ∷ xs) = sweep x xs

  -- sweeps until none swaps, on fuel
  unfoldable pub sort_by : ℕ → List A → Option (List A)
  sort_by zero xs = none
  sort_by (suc f) xs = elim (sweep_all xs).1 [
    | true ↦ sort_by f (sweep_all xs).0
    | false ↦ some (sweep_all xs).0
  ]

  -- how many pairs stand in the wrong order
  unfoldable inversions : List A → ℕ
  inversions [] = 0
  inversions (x ∷ xs) = count (out x) xs + inversions xs

  -- no pair of neighbours stands in the wrong order
  abbrev pub IsInOrder : List A → Type 0
  IsInOrder [] = Unit
  IsInOrder (x ∷ []) = Unit
  IsInOrder (x ∷ y ∷ ys) = (out x y ≡ false) × IsInOrder (y ∷ ys)

  inversions-le : (xs : List A) → inversions xs ≤ length xs * length xs
  unfolding inversions
  inversions-le [] = omega arith
  inversions-le (x ∷ xs) = omega (arith, inversions-le xs, count-le (out x) xs)

  -- What folds over a pair in either order alike does not see the sweep.
  module _ {B : Type ℓ} (f : A → B → B) (z : B)
      (alike : (x y : A) (b : B) → out x y ≡ true → f x (f y b) ≡ f y (f x b)) where
    fold-sweep : (x : A) (xs : List A) → fold f z (sweep x xs).0 ≡ fold f z (x ∷ xs)
    unfolding fold sweep
    fold-sweep x [] = refl
    fold-sweep x (y ∷ ys) = elim (Bool-cases (out x y)) [
      | inl swap ↦
          rw (sweep, swap) (ap (f y) (fold-sweep x ys) ∙ sym (alike x y (fold f z ys) swap))
      | inr stay ↦ rw (sweep, stay) (ap (f x) (fold-sweep y ys))
    ]

    fold-sweep_all : (xs : List A) → fold f z (sweep_all xs).0 ≡ fold f z xs
    unfolding sweep_all
    fold-sweep_all [] = refl
    fold-sweep_all (x ∷ xs) = fold-sweep x xs

    pub fold-sort_by :
        (fuel : ℕ) (xs ys : List A) → sort_by fuel xs ≡ some ys → fold f z ys ≡ fold f z xs
    unfolding sort_by
    fold-sort_by zero xs ys e = absurd (ground arith)
    fold-sort_by (suc fuel) xs ys e = elim (Bool-cases (sweep_all xs).1) [
      | inl swapped ↦ fold-sort_by fuel (sweep_all xs).0 ys (ground arith) ∙ fold-sweep_all xs
      | inr done ↦
          let last : (sweep_all xs).0 ≡ ys = ground arith in
          ap (fold f z) (sym last) ∙ fold-sweep_all xs
    ]

  count-sweep : (p : A → Bool) (x : A) (xs : List A) → count p (sweep x xs).0 ≡ count p (x ∷ xs)
  unfolding count sweep
  count-sweep p x [] = refl
  count-sweep p x (y ∷ ys) = elim (Bool-cases (out x y)) [
    | inl swap ↦ rw (count, swap) (omega (arith, count-sweep p x ys))
    | inr stay ↦ rw (count, stay) (omega (arith, count-sweep p y ys))
  ]

  count-sweep_all : (p : A → Bool) (xs : List A) → count p (sweep_all xs).0 ≡ count p xs
  unfolding sweep_all
  count-sweep_all p [] = refl
  count-sweep_all p (x ∷ xs) = count-sweep p x xs

  -- A sweep that does not swap finds the list in order.
  sweep-IsInOrder :
      (x : A) (xs : List A)
      → (sweep x xs).1 ≡ false
      → ((sweep x xs).0 ≡ x ∷ xs) × IsInOrder (x ∷ xs)
  unfolding sweep
  sweep-IsInOrder x [] e = (refl, tt)
  sweep-IsInOrder x (y ∷ ys) e = elim (Bool-cases (out x y)) [
    | inl swap ↦ absurd (ground arith)
    | inr stay ↦ ground (arith, sweep-IsInOrder y ys)
  ]

  sweep_all-IsInOrder :
      (xs : List A) → (sweep_all xs).1 ≡ false → ((sweep_all xs).0 ≡ xs) × IsInOrder xs
  unfolding sweep_all
  sweep_all-IsInOrder [] e = (refl, tt)
  sweep_all-IsInOrder (x ∷ xs) e = sweep-IsInOrder x xs e

  -- A list in order with the elements of another.
  pub record IsSorting (old new : List A) : Type ℓ where
    pub in_order : IsInOrder new
    pub same : (p : A → Bool) → count p new ≡ count p old

  -- The test swaps no pair back.
  module _ (asymmetric : (x y : A) → out x y ≡ true → out y x ≡ false) where
    -- A sweep that swaps leaves fewer inversions, and no sweep leaves more.
    inversions-sweep :
        (x : A) (xs : List A)
        → (if (sweep x xs).1 then 1 else 0) + inversions (sweep x xs).0 ≤ inversions (x ∷ xs)
    unfolding inversions sweep count
    inversions-sweep x [] = omega arith
    inversions-sweep x (y ∷ ys) = elim (Bool-cases (out x y)) [
      | inl swap ↦
          ground (arith, inversions-sweep x ys, count-sweep (out y) x ys, asymmetric x y swap)
      | inr stay ↦ ground (arith, inversions-sweep y ys, count-sweep (out x) y ys)
    ]

    inversions-sweep_all :
        (xs : List A)
        → (if (sweep_all xs).1 then 1 else 0) + inversions (sweep_all xs).0 ≤ inversions xs
    unfolding sweep_all inversions
    inversions-sweep_all [] = omega arith
    inversions-sweep_all (x ∷ xs) = omega (arith, inversions-sweep x xs)

    sorts :
        (fuel : ℕ) (xs : List A)
        → inversions xs < fuel
        → (ys : List A) × (sort_by fuel xs ≡ some ys) × IsSorting xs ys
    unfolding sort_by
    sorts zero xs h = absurd (omega arith)
    sorts (suc fuel) xs h = elim (Bool-cases (sweep_all xs).1) [
      | inl swapped ↦
          let (ys, e, sort) =
            sorts fuel (sweep_all xs).0 (ground (arith, inversions-sweep_all xs)) in
          (
            ys,
            rw (sort_by, swapped) e,
            record { in_order = sort.in_order; same = λ p. sort.same p ∙ count-sweep_all p xs },
          )
      | inr done ↦ (
        (sweep_all xs).0,
        rw (sort_by, done) refl,
        record {
          in_order =
              subst IsInOrder (sym (sweep_all-IsInOrder xs done).0) (sweep_all-IsInOrder xs done).1;
          same = λ p. count-sweep_all p xs;
        },
      )
    ]

    -- As many sweeps as the square of the length, and one more, are enough.
    pub sort_by-IsSorting :
        (fuel : ℕ) (xs : List A)
        → length xs * length xs < fuel
        → (ys : List A) × (sort_by fuel xs ≡ some ys) × IsSorting xs ys
    sort_by-IsSorting fuel xs h = sorts fuel xs (omega (arith, inversions-le xs))
