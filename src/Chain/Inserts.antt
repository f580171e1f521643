-- ===== src/Chain/Inserts.antt =====
-- Insertion at the ends and in the middle.
pub mod Middle
pub mod After
pub mod Tail
use chromatron.Base.{
  ℕ, ◌≡◌, refl, Bool, true, false, ◌||◌, Option, none, some, List, [], ◌∷◌, ◌++◌, arith, ◌==◌, ◌∙◌,
  if◌then◌else◌, ap,
}
use chromatron.Base.Bytes.{◌>>=◌}
use chromatron.Chain.{
  Node, Store, Endpoints, modify, insert_first, insert_head, insert_tail, insert_after, link_back,
}
use chromatron.Chain.Linked.{
  Cells, has, IsDistinct, first_or, last_or, Linked, IsList, frame, written, modify-some,
  written_self, written_ne, Yields, ne_of_has,
}

module _ (h : ℕ) (n : Node) (st : Store) (here : st h ≡ some n) where
  pub insert_first-Yields : Yields st ((h, n.payload) ∷ []) (insert_first h st)
  unfolding insert_first
  insert_first-Yields =
      let first : Node = record n { prev = none; next = none } in
      (
        record { head = some h; tail = some h },
        written h first st,
        rw (insert_first, modify-some h (λ m. record m { prev = none; next = none }) st here) refl,
        record {
          head = refl;
          tail = refl;
          linked = (written_self h first st, tt);
          distinct = (refl, tt);
        },
        λ a out. written_ne h first st a (ground arith),
      )

  -- list_v_insert_head puts a node that is not in the list before the others, and leaves the nodes outside
  -- of the new list alone.
  pub insert_head-Yields :
      (l : Endpoints) (xs : Cells)
      → IsList l st xs
      → has h xs ≡ false
      → Yields st ((h, n.payload) ∷ xs) (insert_head h l st)
  unfolding insert_head
  insert_head-Yields l [] s new = rw (insert_head, s.head) insert_first-Yields
  insert_head-Yields l ((b, d) ∷ xs) s new =
      let second : Node = record { prev = some h; next = first_or xs none; payload = d } in
      let first : Node = record n { prev = none; next = some b } in
      let h_b : (h == b) ≡ false = ground arith in
      let b_h : (b == h) ≡ false = ground arith in
      let st1 : Store = written b second st in
      let st2 : Store = written h first st1 in
      (
        record l { head = some h },
        st2,
        rw (insert_head, s.head)
            (rw
              (
                modify-some b (λ m. record m { prev = some h }) st s.linked.0,
                modify-some h (λ m. record m { prev = none; next = some b }) st1
                    (written_ne b second st h h_b ∙ here),
              )
              refl),
        record {
          head = refl;
          tail = s.tail;
          linked = (
            written_self h first st1,
            (
              written_ne h first st1 b b_h ∙ written_self b second st,
              frame st st2 (some b) xs none
                  (λ a i.
                    written_ne h first st1 a (ne_of_has a h xs i (ground arith))
                    ∙ written_ne b second st a (ne_of_has a b xs i s.distinct.0))
                  s.linked.1,
            ),
          );
          distinct = (new, s.distinct);
        },
        λ a out. written_ne h first st1 a (ground arith) ∙ written_ne b second st a (ground arith),
      )
