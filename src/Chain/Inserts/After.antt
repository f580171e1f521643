-- ===== src/Chain/Inserts/After.antt =====
-- list_v_insert_after.
use chromatron.Base.{ℕ, ◌≡◌, refl, false, none, some, List, [], ◌∷◌, ◌++◌, arith, ◌==◌, ◌∙◌, sym}
use chromatron.Chain.{Node, Store, Endpoints, insert_after, link_back}
use chromatron.Chain.Linked.{
  IsDistinct, Linked, frame, Cells, has, first_or, last_or, IsList, frame, written, modify-some,
  written_self, written_ne, Yields, ne_of_has,
}
use chromatron.Chain.Inserts.Middle.{
  has-append, IsDistinct-right, apart, last_or-append, first_or-append, at_place, IsDistinct-insert,
  Linked-insert,
}

module _ (new : ℕ) (n : Node) (st : Store) (here : st new ≡ some n) (l : Endpoints) (xs : Cells)
    (h : ℕ) (d : List ℕ) where
  -- Behind the last node.
  after_last :
      IsList l st (xs ++ ((h, d) ∷ []))
      → has new (xs ++ ((h, d) ∷ [])) ≡ false
      → Yields st (xs ++ ((h, d) ∷ (new, n.payload) ∷ [])) (insert_after h new l st)
  unfolding insert_after link_back
  after_last s out =
      let place = (at_place h d [] st none xs s.linked).0 in
      let n' : Node = record n { prev = some h; next = none } in
      let h' : Node = record { prev = last_or none xs; next = some new; payload = d } in
      let st1 : Store = written new n' st in
      let apart_new : (new == h) ≡ false = ground (arith, has-append new xs ((h, d) ∷ [])) in
      let apart_h : (h == new) ≡ false = ground arith in
      (
        record l { tail = some new },
        written h h' st1,
        rw
            (
              insert_after,
              place,
              modify-some new (λ m. record m { prev = some h; next = none }) st here,
              modify-some h (λ m. record m { next = some new }) st1
                  (written_ne new n' st h apart_h ∙ place),
            )
            refl,
        record {
          head = s.head ∙ first_or-append h d [] xs ((new, n.payload) ∷ []);
          tail = sym (last_or-append h d ((new, n.payload) ∷ []) none xs);
          linked =
              Linked-insert h d [] new n.payload st (written h h' st1) none xs s.linked
                (λ a i.
                  written_ne h h' st1 a (ground (arith, apart a xs ((h, d) ∷ []) s.distinct i))
                  ∙ written_ne new n' st a
                      (ne_of_has a new xs i (ground (arith, has-append new xs ((h, d) ∷ [])))))
                (written_self h h' st1) (written_ne h h' st1 new apart_new ∙ written_self new n' st)
                tt;
          distinct = IsDistinct-insert h d [] new n.payload xs s.distinct out;
        },
        λ a away.
            written_ne h h' st1 a (ground (arith, has-append a xs ((h, d) ∷ (new, n.payload) ∷ [])))
            ∙ written_ne new n' st a
                (ground (arith, has-append a xs ((h, d) ∷ (new, n.payload) ∷ []))),
      )

  -- Between two nodes, of which `y` is the one behind.
  module _ (y : ℕ) (c : List ℕ) (ys : Cells) (s : IsList l st (xs ++ ((h, d) ∷ (y, c) ∷ ys)))
      (out : has new (xs ++ ((h, d) ∷ (y, c) ∷ ys)) ≡ false) where
    abbrev behind : Cells
    behind = (y, c) ∷ ys

    abbrev new_node : Node
    new_node = record n { prev = some h; next = some y }

    abbrev next_node : Node
    next_node = record { prev = some new; next = first_or ys none; payload = c }

    abbrev place_node : Node
    place_node = record { prev = last_or none xs; next = some new; payload = d }

    abbrev with_new : Store
    with_new = written new new_node st

    abbrev with_next : Store
    with_next = written y next_node with_new

    abbrev with_all : Store
    with_all = written h place_node with_next

    is_new : has new ((h, d) ∷ behind) ≡ false
    is_new = ground (arith, has-append new xs ((h, d) ∷ behind), out)

    order : IsDistinct ((h, d) ∷ behind)
    order = IsDistinct-right xs ((h, d) ∷ behind) s.distinct

    place : (st h ≡ some (record place_node { next = some y })) × Linked st (some h) behind none
    place = at_place h d behind st none xs s.linked

    elsewhere :
        (a : ℕ) → (a == h) ≡ false → (a == y) ≡ false → (a == new) ≡ false → with_all a ≡ st a
    elsewhere a a_h a_y a_new =
        written_ne h place_node with_next a a_h
        ∙ written_ne y next_node with_new a a_y
        ∙ written_ne new new_node st a a_new

    inner_run : insert_after h new l st ≡ some (l, with_all)
    unfolding insert_after link_back
    inner_run =
        rw
          (
            insert_after,
            place.0,
            modify-some new (λ m. record m { prev = some h; next = some y }) st here,
            link_back,
            modify-some y (λ m. record m { prev = some new }) with_new
                (written_ne new new_node st y (ground (arith, is_new)) ∙ place.1.0),
            modify-some h (λ m. record m { next = some new }) with_next
                (written_ne y next_node with_new h (ground (arith, order.0))
                  ∙ written_ne new new_node st h (ground (arith, is_new))
                  ∙ place.0),
          )
          refl

    inner_behind : Linked with_all (some new) behind none
    inner_behind = (
      written_ne h place_node with_next y (ground (arith, order.0))
          ∙ written_self y next_node with_new,
      frame st with_all (some y) ys none
          (λ a i.
            elsewhere a (ne_of_has a h ys i (ground (arith, order.0)))
              (ne_of_has a y ys i order.1.0) (ne_of_has a new ys i (ground (arith, is_new))))
          place.1.1,
    )

    inner_linked : Linked with_all none (xs ++ ((h, d) ∷ (new, n.payload) ∷ behind)) none
    inner_linked =
        Linked-insert h d behind new n.payload st with_all none xs s.linked
          (λ a i.
            let later = apart a xs ((h, d) ∷ behind) s.distinct i in
            elsewhere a (ground arith) (ground arith)
              (ne_of_has a new xs i (ground (arith, has-append new xs ((h, d) ∷ behind), out))))
          (written_self h place_node with_next)
          (written_ne h place_node with_next new (ground (arith, is_new))
            ∙ written_ne y next_node with_new new (ground (arith, is_new))
            ∙ written_self new new_node st)
          inner_behind

    after_inner : Yields st (xs ++ ((h, d) ∷ (new, n.payload) ∷ behind)) (insert_after h new l st)
    after_inner = (
      l,
      with_all,
      inner_run,
      record {
        head = s.head ∙ first_or-append h d behind xs ((new, n.payload) ∷ behind);
        tail =
            s.tail
            ∙ last_or-append h d behind none xs
            ∙ sym (last_or-append h d ((new, n.payload) ∷ behind) none xs);
        linked = inner_linked;
        distinct = IsDistinct-insert h d behind new n.payload xs s.distinct out;
      },
      λ a away.
          let later : has a ((h, d) ∷ (new, n.payload) ∷ behind) ≡ false =
            ground (arith, has-append a xs ((h, d) ∷ (new, n.payload) ∷ behind), away) in
          elsewhere a (ground arith) (ground arith) (ground arith),
    )

module _ (new : ℕ) (n : Node) (st : Store) (here : st new ≡ some n) (l : Endpoints) where
  -- list_v_insert_after puts a node that is not in the list behind one that is, and leaves the nodes
  -- outside of the new list alone.
  pub insert_after-Yields :
      (xs : Cells) (h : ℕ) (d : List ℕ) (ys : Cells)
      → IsList l st (xs ++ ((h, d) ∷ ys))
      → has new (xs ++ ((h, d) ∷ ys)) ≡ false
      → Yields st (xs ++ ((h, d) ∷ (new, n.payload) ∷ ys)) (insert_after h new l st)
  insert_after-Yields xs h d [] s out = after_last new n st here l xs h d s out
  insert_after-Yields xs h d ((y, c) ∷ ys) s out = after_inner new n st here l xs h d y c ys s out
