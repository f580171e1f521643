-- ===== src/Chain/Inserts/Tail.antt =====
-- list_v_insert_tail.
use chromatron.Base.{
  ℕ, ◌≡◌, refl, false, none, some, List, [], ◌∷◌, ◌++◌, ◌∙◌, ◌⊎◌, inl, inr, ap, subst, sym,
}
use chromatron.Chain.{Node, Store, Endpoints, insert_tail}
use chromatron.Chain.Linked.{Cells, has, IsList, Yields}
use chromatron.Chain.Inserts.{insert_first-Yields}
use chromatron.Chain.Inserts.Middle.{last_or-append}
use chromatron.Chain.Inserts.After.{insert_after-Yields}

-- A sequence is empty, or there is a last node.
pub last-cases :
    (xs : Cells) → (xs ≡ []) ⊎ ((ys : Cells) × (h : ℕ) × (d : List ℕ) × (xs ≡ ys ++ ((h, d) ∷ [])))
last-cases [] = inl refl
last-cases ((h, d) ∷ xs) = elim (last-cases xs) [
  | inl e ↦ inr ([], h, d, ap (λ zs. (h, d) ∷ zs) e)
  | inr (ys, h', d', e) ↦ inr ((h, d) ∷ ys, h', d', ap (λ zs. (h, d) ∷ zs) e)
]

pub snoc-append : (xs ys zs : Cells) → (xs ++ ys) ++ zs ≡ xs ++ (ys ++ zs)
snoc-append [] ys zs = refl
snoc-append (x ∷ xs) ys zs = ap (λ ws. x ∷ ws) (snoc-append xs ys zs)

module _ (new : ℕ) (n : Node) (st : Store) (here : st new ≡ some n) (l : Endpoints) where
  behind_last :
      (ys : Cells) (h : ℕ) (d : List ℕ)
      → IsList l st (ys ++ ((h, d) ∷ []))
      → has new (ys ++ ((h, d) ∷ [])) ≡ false
      → Yields st ((ys ++ ((h, d) ∷ [])) ++ ((new, n.payload) ∷ [])) (insert_tail new l st)
  unfolding insert_tail
  behind_last ys h d s out =
      let last : l.tail ≡ some h = s.tail ∙ last_or-append h d [] none ys in
      subst (λ zs. Yields st zs (insert_tail new l st))
        (sym (snoc-append ys ((h, d) ∷ []) ((new, n.payload) ∷ [])))
        (rw (insert_tail, last) (insert_after-Yields new n st here l ys h d [] s out))

  -- list_v_insert_tail puts a node that is in the store, but not in the list, behind the nodes of a list, and leaves the
  -- nodes outside of the new list alone.
  pub insert_tail-Yields :
      (xs : Cells)
      → IsList l st xs
      → has new xs ≡ false
      → Yields st (xs ++ ((new, n.payload) ∷ [])) (insert_tail new l st)
  unfolding insert_tail
  insert_tail-Yields xs s out = elim (last-cases xs) [
    | inl e ↦
        let s' : IsList l st [] = subst (IsList l st) e s in
        subst (λ zs. Yields st (zs ++ ((new, n.payload) ∷ [])) (insert_tail new l st)) (sym e)
          (rw (insert_tail, s'.tail) (insert_first-Yields new n st here))
    | inr (ys, h, d, e) ↦
        subst (λ zs. Yields st (zs ++ ((new, n.payload) ∷ [])) (insert_tail new l st)) (sym e)
          (behind_last ys h d (subst (IsList l st) e s) (subst (λ zs. has new zs ≡ false) e out))
  ]
