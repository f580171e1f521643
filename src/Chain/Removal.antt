-- ===== src/Chain/Removal.antt =====
-- list_v_remove.
use chromatron.Base.{
  ℕ, ◌≡◌, refl, true, false, Option, none, some, List, [], ◌∷◌, ◌++◌, arith, ◌==◌, ◌∙◌, sym, ap,
  subst, inl, inr,
}
use chromatron.Chain.{Node, Store, Endpoints, remove, unlink_prev, unlink_next}
use chromatron.Chain.Linked.{
  Cells, has, IsDistinct, first_or, last_or, Linked, IsList, frame, written, modify-some,
  written_self, written_ne, Yields, ne_of_has,
}
use chromatron.Chain.Inserts.Middle.{
  has-append, IsDistinct-right, apart, last_or-append, first_or-append, at_place,
}
use chromatron.Chain.Inserts.Tail.{last-cases, snoc-append}

module _ (h : ℕ) (d : List ℕ) (st : Store) (l : Endpoints) where
  -- The only node, and the first of several.
  remove_only : IsList l st ((h, d) ∷ []) → Yields st [] (remove h l st)
  unfolding remove unlink_prev unlink_next
  remove_only s = (
    record { head = none; tail = none },
    st,
    rw (remove, s.linked.0) refl,
    record { head = refl; tail = refl; linked = tt; distinct = tt },
    λ a out. refl,
  )

  remove_first :
      (y : ℕ) (c : List ℕ) (ys : Cells)
      → IsList l st ((h, d) ∷ (y, c) ∷ ys)
      → Yields st ((y, c) ∷ ys) (remove h l st)
  unfolding remove unlink_prev unlink_next
  remove_first y c ys s =
      let y' : Node = record { prev = none; next = first_or ys none; payload = c } in
      (
        record l { head = some y },
        written y y' st,
        rw
            (
              remove,
              s.linked.0,
              unlink_next,
              modify-some y (λ m. record m { prev = none }) st s.linked.1.0,
            )
            refl,
        record {
          head = refl;
          tail = s.tail;
          linked = (
            written_self y y' st,
            frame st (written y y' st) (some y) ys none
                (λ a i. written_ne y y' st a (ne_of_has a y ys i s.distinct.1.0)) s.linked.1.1,
          );
          distinct = s.distinct.1;
        },
        λ a out. written_ne y y' st a (ground (arith, out)),
      )

  module _ (g : ℕ) (e : List ℕ) (ys : Cells) where
    IsDistinct-cut :
        (zs : Cells) → IsDistinct (zs ++ ((g, e) ∷ (h, d) ∷ ys)) → IsDistinct (zs ++ ((g, e) ∷ ys))
    IsDistinct-cut [] s = ground (arith, s)
    IsDistinct-cut ((a, b) ∷ zs) s = (
      ground (arith, s.0, has-append a zs ((g, e) ∷ ys), has-append a zs ((g, e) ∷ (h, d) ∷ ys)),
      IsDistinct-cut zs s.1,
    )

    Linked-cut :
        (st' : Store) (p : Option ℕ) (zs : Cells)
        → Linked st p (zs ++ ((g, e) ∷ (h, d) ∷ ys)) none
        → ((a : ℕ) → has a zs ≡ true → st' a ≡ st a)
        → st' g ≡ some (record { prev = last_or p zs; next = first_or ys none; payload = e })
        → Linked st' (some g) ys none
        → Linked st' p (zs ++ ((g, e) ∷ ys)) none
    Linked-cut st' p [] k same at_g rest = (at_g, rest)
    Linked-cut st' p ((a, b) ∷ zs) k same at_g rest = (
      same a (ground arith)
          ∙ k.0
          ∙ ap (λ q. some (record { prev = p; next = q; payload = b }))
              (first_or-append g e ((h, d) ∷ ys) zs ys),
      Linked-cut st' (some a) zs k.1 (λ c i. same c (ground arith)) at_g rest,
    )

  -- The last node.
  module _ (g : ℕ) (e : List ℕ) (zs : Cells) where
    remove_last :
        IsList l st (zs ++ ((g, e) ∷ (h, d) ∷ [])) → Yields st (zs ++ ((g, e) ∷ [])) (remove h l st)
    unfolding remove unlink_prev unlink_next
    remove_last s =
        let place = at_place g e ((h, d) ∷ []) st none zs s.linked in
        let g' : Node = record { prev = last_or none zs; next = none; payload = e } in
        (
          record l { tail = some g },
          written g g' st,
          rw
              (
                remove,
                place.1.0,
                unlink_prev,
                modify-some g (λ m. record m { next = none }) st place.0,
              )
              refl,
          record {
            head = s.head ∙ first_or-append g e ((h, d) ∷ []) zs [];
            tail = sym (last_or-append g e [] none zs);
            linked =
                Linked-cut g e [] (written g g' st) none zs s.linked
                  (λ a i.
                    let later = apart a zs ((g, e) ∷ (h, d) ∷ []) s.distinct i in
                    written_ne g g' st a (ground arith))
                  (written_self g g' st) tt;
            distinct = IsDistinct-cut g e [] zs s.distinct;
          },
          λ a out. written_ne g g' st a (ground (arith, out, has-append a zs ((g, e) ∷ []))),
        )

  -- A node between two others.
  module _ (g : ℕ) (e : List ℕ) (y : ℕ) (c : List ℕ) (ys zs : Cells)
      (s : IsList l st (zs ++ ((g, e) ∷ (h, d) ∷ (y, c) ∷ ys))) where
    abbrev before_node : Node
    before_node = record { prev = last_or none zs; next = some y; payload = e }

    abbrev behind_node : Node
    behind_node = record { prev = some g; next = first_or ys none; payload = c }

    abbrev with_before : Store
    with_before = written g before_node st

    abbrev with_both : Store
    with_both = written y behind_node with_before

    order : IsDistinct ((g, e) ∷ (h, d) ∷ (y, c) ∷ ys)
    order = IsDistinct-right zs ((g, e) ∷ (h, d) ∷ (y, c) ∷ ys) s.distinct

    place : Linked st (last_or none zs) ((g, e) ∷ (h, d) ∷ (y, c) ∷ ys) none
    place = at_place g e ((h, d) ∷ (y, c) ∷ ys) st none zs s.linked

    elsewhere : (a : ℕ) → (a == g) ≡ false → (a == y) ≡ false → with_both a ≡ st a
    elsewhere a a_g a_y =
        written_ne y behind_node with_before a a_y ∙ written_ne g before_node st a a_g

    inner_run : remove h l st ≡ some (l, with_both)
    unfolding remove unlink_prev unlink_next
    inner_run =
        rw
          (
            remove,
            place.1.0,
            unlink_prev,
            modify-some g (λ m. record m { next = some y }) st place.0,
            unlink_next,
            modify-some y (λ m. record m { prev = some g }) with_before
                (written_ne g before_node st y (ground (arith, order.0)) ∙ place.1.1.0),
          )
          refl

    inner_behind : Linked with_both (some g) ((y, c) ∷ ys) none
    inner_behind = (
      written_self y behind_node with_before,
      frame st with_both (some y) ys none
          (λ a i.
            elsewhere a (ne_of_has a g ys i (ground (arith, order.0)))
              (ne_of_has a y ys i order.1.1.0))
          place.1.1.1,
    )

    remove_inner : Yields st (zs ++ ((g, e) ∷ (y, c) ∷ ys)) (remove h l st)
    remove_inner = (
      l,
      with_both,
      inner_run,
      record {
        head = s.head ∙ first_or-append g e ((h, d) ∷ (y, c) ∷ ys) zs ((y, c) ∷ ys);
        tail =
            s.tail
            ∙ last_or-append g e ((h, d) ∷ (y, c) ∷ ys) none zs
            ∙ sym (last_or-append g e ((y, c) ∷ ys) none zs);
        linked =
            Linked-cut g e ((y, c) ∷ ys) with_both none zs s.linked
              (λ a i.
                let later = apart a zs ((g, e) ∷ (h, d) ∷ (y, c) ∷ ys) s.distinct i in
                elsewhere a (ground arith) (ground arith))
              (written_ne y behind_node with_before g (ground (arith, order.0))
                ∙ written_self g before_node st)
              inner_behind;
        distinct = IsDistinct-cut g e ((y, c) ∷ ys) zs s.distinct;
      },
      λ a out.
          let later : has a ((g, e) ∷ (y, c) ∷ ys) ≡ false =
            ground (arith, out, has-append a zs ((g, e) ∷ (y, c) ∷ ys)) in
          elsewhere a (ground arith) (ground arith),
    )

  behind_first : (ys : Cells) → IsList l st ((h, d) ∷ ys) → Yields st ys (remove h l st)
  behind_first [] s = remove_only s
  behind_first ((y, c) ∷ ys) s = remove_first y c ys s

  behind_another :
      (zs : Cells) (g : ℕ) (e : List ℕ) (ys : Cells)
      → IsList l st (zs ++ ((g, e) ∷ (h, d) ∷ ys))
      → Yields st (zs ++ ((g, e) ∷ ys)) (remove h l st)
  behind_another zs g e [] s = remove_last g e zs s
  behind_another zs g e ((y, c) ∷ ys) s = remove_inner g e y c ys zs s

  -- list_v_remove takes a node out of a list, wherever it stands, and leaves that node and the others
  -- outside of the new list alone.
  pub remove-Yields :
      (xs ys : Cells) → IsList l st (xs ++ ((h, d) ∷ ys)) → Yields st (xs ++ ys) (remove h l st)
  remove-Yields xs ys s = elim (last-cases xs) [
    | inl none_before ↦
        subst (λ ws. Yields st (ws ++ ys) (remove h l st)) (sym none_before)
          (behind_first ys (subst (λ ws. IsList l st (ws ++ ((h, d) ∷ ys))) none_before s))
    | inr (zs, g, e, split) ↦
        subst (λ ws. Yields st ws (remove h l st))
          (sym (ap (λ ws. ws ++ ys) split ∙ snoc-append zs ((g, e) ∷ []) ys))
          (behind_another zs g e ys (
            subst (IsList l st)
              (ap (λ ws. ws ++ ((h, d) ∷ ys)) split ∙ snoc-append zs ((g, e) ∷ []) ((h, d) ∷ ys))
              s))
  ]
