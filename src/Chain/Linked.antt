-- ===== src/Chain/Linked.antt =====
-- The sequence that a doubly linked list stands for.
use chromatron.Base.{
  ℕ, ◌≡◌, refl, Bool, true, false, ◌||◌, Option, none, some, List, [], ◌∷◌, arith, ◌==◌, ◌∙◌,
  if◌then◌else◌,
}
use chromatron.Chain.{Node, Store, Endpoints, modify}

-- handles with their data, in order
abbrev pub Cells : Type 0
Cells = List (ℕ × List ℕ)

abbrev pub has : ℕ → Cells → Bool
has a [] = false
has a ((h, _) ∷ xs) = (a == h) || has a xs

abbrev pub IsDistinct : Cells → Type 0
IsDistinct [] = Unit
IsDistinct ((h, _) ∷ xs) = (has h xs ≡ false) × IsDistinct xs

abbrev pub first_or : Cells → Option ℕ → Option ℕ
first_or [] q = q
first_or ((h, _) ∷ xs) q = some h

abbrev pub last_or : Option ℕ → Cells → Option ℕ
last_or p [] = p
last_or p ((h, _) ∷ xs) = last_or (some h) xs

-- The nodes of `xs`, linked both ways, between `p` and `q`.
abbrev pub Linked : Store → Option ℕ → Cells → Option ℕ → Type 0
Linked st p [] q = Unit
Linked st p ((h, d) ∷ xs) q =
    (st h ≡ some (record { prev = p; next = first_or xs q; payload = d })) × Linked st (some h) xs q

pub record IsList (l : Endpoints) (st : Store) (xs : Cells) : Type 0 where
  pub head : l.head ≡ first_or xs none
  pub tail : l.tail ≡ last_or none xs
  pub linked : Linked st none xs none
  pub distinct : IsDistinct xs

-- A store that holds the same nodes for a sequence keeps it linked.
pub frame :
    (st st' : Store) (p : Option ℕ) (xs : Cells) (q : Option ℕ)
    → ((a : ℕ) → has a xs ≡ true → st' a ≡ st a)
    → Linked st p xs q
    → Linked st' p xs q
frame st st' p [] q same l = tt
frame st st' p ((h, d) ∷ xs) q same l =
    (same h (ground arith) ∙ l.0, frame st st' (some h) xs q (λ a i. same a (ground arith)) l.1)

-- the store after a write
abbrev pub written : ℕ → Node → Store → Store
written h n st = λ a. if a == h then some n else st a

pub modify-some :
    (h : ℕ) (f : Node → Node) (st : Store) {n : Node}
    → st h ≡ some n
    → modify h f st ≡ some (written h (f n) st)
unfolding modify
modify-some h f st e = rw (modify, e) refl

pub written_self : (h : ℕ) (n : Node) (st : Store) → written h n st h ≡ some n
written_self h n st = ground arith

pub written_ne :
    (h : ℕ) (n : Node) (st : Store) (a : ℕ) → (a == h) ≡ false → written h n st a ≡ st a
written_ne h n st a e = rw e refl

-- An operation succeeds, with the given sequence, and leaves the nodes outside of it as they were.
abbrev pub Yields : Store → Cells → Option (Endpoints × Store) → Type 0
Yields st xs r =
    (l' : Endpoints) × (st' : Store) × (r ≡ some (l', st'))
    × IsList l' st' xs
    × ((a : ℕ) → has a xs ≡ false → st' a ≡ st a)

-- A handle in a sequence is not one outside of it.
pub ne_of_has : (a b : ℕ) (xs : Cells) → has a xs ≡ true → has b xs ≡ false → (a == b) ≡ false
ne_of_has a b [] i o = absurd (ground arith)
ne_of_has a b ((h, d) ∷ xs) i o = ground (arith, ne_of_has a b xs)
