-- ===== src/Util/Sorting.antt =====
-- util_v_bubble_sort_u16 ends, with its elements in order.
use chromatron.Base.{ℕ, ◌*◌, ◌<◌, ◌≡◌, some, List, ltb, length, arith}
use chromatron.Base.Sorting.{IsSorting, sort_by-IsSorting}
use chromatron.Util.{bubble_sort}

-- a list of numbers in order, with the elements of another
abbrev pub IsSortOf : List ℕ → List ℕ → Type 0
IsSortOf = IsSorting (λ x y. ltb y x)

-- With as many sweeps as the square of the length, and one more, util_v_bubble_sort_u16 ends with the
-- elements that it was given, in order.
pub bubble_sort-IsSortOf :
    (fuel : ℕ) (xs : List ℕ)
    → length xs * length xs < fuel
    → (ys : List ℕ) × (bubble_sort fuel xs ≡ some ys) × IsSortOf xs ys
unfolding bubble_sort
bubble_sort-IsSortOf fuel xs h =
    sort_by-IsSorting (λ x y. ltb y x) (λ x y e. ground arith) fuel xs h
