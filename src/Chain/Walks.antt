-- ===== src/Chain/Walks.antt =====
-- The loops that go from node to node.
use chromatron.Base.{
  ℕ, zero, suc, ◌+◌, ◌%◌, ◌^◌, ◌≤◌, ◌<◌, ◌≡◌, refl, Option, none, some, [], ◌∷◌, length, drop,
  arith, ◌∙◌, ap,
}
use chromatron.Chain.{Store, Endpoints, count_from, count, index_from, index}
use chromatron.Chain.Linked.{Cells, first_or, Linked, IsList}

module _ (st : Store) where
  count_from_lem :
      (fuel n : ℕ) (p : Option ℕ) (xs : Cells)
      → Linked st p xs none
      → length xs ≤ fuel
      → n < 2 ^ 8
      → count_from fuel n (first_or xs none) st ≡ some ((n + length xs) % 2 ^ 8)
  unfolding count_from
  count_from_lem zero n p [] l h b = ap some (omega arith)
  count_from_lem (suc fuel) n p [] l h b = ap some (omega arith)
  count_from_lem zero n p ((a, d) ∷ xs) l h b = absurd (omega arith)
  count_from_lem (suc fuel) n p ((a, d) ∷ xs) l h b =
      rw (count_from, l.0)
        (count_from_lem fuel ((n + 1) % 2 ^ 8) (some a) xs l.1 (omega arith) (omega arith)
          ∙ ap some (omega arith))

  index_from_lem :
      (i : ℕ) (p : Option ℕ) (xs : Cells)
      → Linked st p xs none
      → index_from i (first_or xs none) st ≡ some (first_or (drop i xs) none)
  unfolding index_from
  index_from_lem zero p [] l = refl
  index_from_lem (suc i) p [] l = refl
  index_from_lem zero p ((a, d) ∷ xs) l = refl
  index_from_lem (suc i) p ((a, d) ∷ xs) l = rw (index_from, l.0) (index_from_lem i (some a) xs l.1)

  -- With fuel for its nodes, list_u8_count of a list gives their number modulo 2 ^ 8.
  pub count_lem :
      (fuel : ℕ) (l : Endpoints) (xs : Cells)
      → IsList l st xs
      → length xs ≤ fuel
      → count fuel l st ≡ some (length xs % 2 ^ 8)
  unfolding count
  count_lem fuel l xs s h =
      rw s.head (count_from_lem fuel 0 none xs s.linked h (omega arith) ∙ ap some (omega arith))

  -- list_ln_index gives the handle of the node at an index, and none past the end.
  pub index_lem :
      (i : ℕ) (l : Endpoints) (xs : Cells)
      → IsList l st xs
      → index i l st ≡ some (first_or (drop i xs) none)
  unfolding index
  index_lem i l xs s = rw s.head (index_from_lem i none xs s.linked)
