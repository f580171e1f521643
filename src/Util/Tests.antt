-- ===== src/Util/Tests.antt =====
-- Runs of util.c, and its theorems at concrete inputs.
use chromatron.Util.{linear_interp}
use chromatron.Util.Interpolation.{linear_interp_lem}
use chromatron.Base.{◌≤◌, ℕ, ◌-◌, ◌^◌, ◌≡◌, refl, some, List, [], ◌∷◌, arith}
use chromatron.Base.Int.{pos}
use chromatron.Base.Sorting.{sort_by, sweep, sweep_all}
use chromatron.Util.{
  compare_sequence, compare_sequence_u16, bubble_sort, u16_ewma, i16_ewma, extend,
}
use chromatron.Word.{sdiv, magnitude, neg32, mul32, add32, to_u16, slt, sub32}
use chromatron.Util.Sorting.{IsSortOf, bubble_sort-IsSortOf}

-- 3 comes after 65534.
across_the_wrap : compare_sequence_u16 3 65534 ≡ pos 1
unfolding compare_sequence
across_the_wrap = refl

-- A steady signal moves the average away from it.
steady_signal : u16_ewma 5 5 128 ≡ 4
unfolding u16_ewma
steady_signal = refl

-- Half way from -6 to 4 is -1.
half_way : i16_ewma 4 (2 ^ 16 - 6) 128 ≡ 2 ^ 16 - 1
unfolding i16_ewma extend sdiv magnitude neg32 mul32 add32 to_u16 slt sub32
half_way = refl

sorted_values : bubble_sort 10 (3 ∷ 1 ∷ 2 ∷ []) ≡ some (1 ∷ 2 ∷ 3 ∷ [])
unfolding bubble_sort sort_by sweep_all sweep
sorted_values = refl

bubble_sort-IsSortOf_example :
    (ys : List ℕ) × (bubble_sort 10 (3 ∷ 1 ∷ 2 ∷ []) ≡ some ys) × IsSortOf (3 ∷ 1 ∷ 2 ∷ []) ys
bubble_sort-IsSortOf_example = bubble_sort-IsSortOf 10 (3 ∷ 1 ∷ 2 ∷ []) (omega arith)

linear_interp_lem_example :
    (linear_interp 15 10 100 20 200 ≡ 150) × (linear_interp 15 10 100 20 200 ≤ 200)
linear_interp_lem_example =
    linear_interp_lem 15 10 100 20 200 (omega arith) (omega arith) (omega arith) (omega arith)
      (omega arith) (omega arith)
