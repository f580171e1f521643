-- ===== src/Chain/Inserts/Middle.antt =====
-- The places in a sequence, and an insertion behind one of them.
use chromatron.Base.{
  ℕ, ◌≡◌, refl, true, false, ◌||◌, Option, none, some, List, [], ◌∷◌, ◌++◌, arith, ◌∙◌, ap,
}
use chromatron.Chain.{Store}
use chromatron.Chain.Linked.{Cells, has, IsDistinct, first_or, last_or, Linked}

pub has-append : (a : ℕ) (xs ys : Cells) → has a (xs ++ ys) ≡ (has a xs || has a ys)
has-append a [] ys = refl
has-append a ((h, d) ∷ xs) ys = ground (arith, has-append a xs ys)

pub IsDistinct-right : (xs ys : Cells) → IsDistinct (xs ++ ys) → IsDistinct ys
IsDistinct-right [] ys d = d
IsDistinct-right ((h, b) ∷ xs) ys d = IsDistinct-right xs ys d.1

-- What stands before a place is not behind it.
pub apart : (a : ℕ) (xs ys : Cells) → IsDistinct (xs ++ ys) → has a xs ≡ true → has a ys ≡ false
apart a [] ys d i = absurd (ground arith)
apart a ((h, b) ∷ xs) ys d i = ground (arith, apart a xs ys d.1, has-append h xs ys, d.0)

module _ (h : ℕ) (d : List ℕ) (ys : Cells) where
  pub last_or-append :
      (p : Option ℕ) (xs : Cells) → last_or p (xs ++ ((h, d) ∷ ys)) ≡ last_or (some h) ys
  last_or-append p [] = refl
  last_or-append p ((a, b) ∷ xs) = last_or-append (some a) xs

  pub first_or-append :
      (xs zs : Cells) → first_or (xs ++ ((h, d) ∷ ys)) none ≡ first_or (xs ++ ((h, d) ∷ zs)) none
  first_or-append [] zs = refl
  first_or-append ((a, b) ∷ xs) zs = refl

  -- the node at a place, and what is behind it
  pub at_place :
      (st : Store) (p : Option ℕ) (xs : Cells)
      → Linked st p (xs ++ ((h, d) ∷ ys)) none
      → (st h ≡ some (record { prev = last_or p xs; next = first_or ys none; payload = d }))
        × Linked st (some h) ys none
  at_place st p [] l = l
  at_place st p ((a, b) ∷ xs) l = at_place st (some a) xs l.1

  module _ (new : ℕ) (e : List ℕ) where
    pub IsDistinct-insert :
        (xs : Cells)
        → IsDistinct (xs ++ ((h, d) ∷ ys))
        → has new (xs ++ ((h, d) ∷ ys)) ≡ false
        → IsDistinct (xs ++ ((h, d) ∷ (new, e) ∷ ys))
    IsDistinct-insert [] s out = ground (arith, s)
    IsDistinct-insert ((a, b) ∷ xs) s out = (
      ground (arith, s.0, has-append a xs ((h, d) ∷ ys), has-append a xs ((h, d) ∷ (new, e) ∷ ys)),
      IsDistinct-insert xs s.1 (ground arith),
    )

    pub Linked-insert :
        (st st' : Store) (p : Option ℕ) (xs : Cells)
        → Linked st p (xs ++ ((h, d) ∷ ys)) none
        → ((a : ℕ) → has a xs ≡ true → st' a ≡ st a)
        → st' h ≡ some (record { prev = last_or p xs; next = some new; payload = d })
        → st' new ≡ some (record { prev = some h; next = first_or ys none; payload = e })
        → Linked st' (some new) ys none
        → Linked st' p (xs ++ ((h, d) ∷ (new, e) ∷ ys)) none
    Linked-insert st st' p [] l same at_h at_new rest = (at_h, (at_new, rest))
    Linked-insert st st' p ((a, b) ∷ xs) l same at_h at_new rest = (
      same a (ground arith)
          ∙ l.0
          ∙ ap (λ q. some (record { prev = p; next = q; payload = b }))
              (first_or-append xs ((new, e) ∷ ys)),
      Linked-insert st st' (some a) xs l.1 (λ c i. same c (ground arith)) at_h at_new rest,
    )
