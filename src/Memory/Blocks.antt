-- ===== src/Memory/Blocks.antt =====
-- The blocks of a heap by the handles that own them.
use chromatron.Base.{
  ℕ, ◌+◌, ◌-◌, ◌≤◌, ◌<◌, ◌≡◌, refl, ap, Bool, false, not, ◌&&◌, Option, none, some, List, [], ◌∷◌,
  ◌==◌, if◌then◌else◌, arith, Bool-cases, inl, inr,
}
use chromatron.Memory.{Block, block_size, block_at, modify_at}

abbrev pub owns : ℕ → Block → Bool
owns i b = not b.dirty && (b.handle == i)

-- the offset of the clean block of a handle, where `bs` starts at `x`
unfoldable pub locate : ℕ → ℕ → List Block → Option ℕ
locate i x [] = none
locate i x (b ∷ bs) = if owns i b then some x else locate i (x + block_size b) bs

-- the clean block of a handle
unfoldable pub find : ℕ → List Block → Option Block
find i [] = none
find i (b ∷ bs) = if owns i b then some b else find i bs

-- the block of a handle changed
unfoldable pub alter : ℕ → (Block → Block) → List Block → List Block
alter i f [] = []
alter i f (b ∷ bs) = if owns i b then f b ∷ bs else b ∷ alter i f bs

-- Clean blocks have handles below `n`, each one its own.
unfoldable pub IsDistinct : ℕ → List Block → Type 0
IsDistinct n [] = Unit
IsDistinct n (b ∷ bs) =
    (b.dirty ≡ false → (b.handle < n) × (find b.handle bs ≡ none)) × IsDistinct n bs

pub locate-none : (i x : ℕ) (bs : List Block) → find i bs ≡ none → locate i x bs ≡ none
unfolding locate find
locate-none i x [] e = refl
locate-none i x (b ∷ bs) e = ground (arith, locate-none i (x + block_size b) bs)

pub find-none : (i x : ℕ) (bs : List Block) → locate i x bs ≡ none → find i bs ≡ none
unfolding locate find
find-none i x [] e = refl
find-none i x (b ∷ bs) e = ground (arith, find-none i (x + block_size b) bs)

-- The offset of a handle leads to its block.
pub locate-block_at :
    (i x a : ℕ) (bs : List Block)
    → locate i x bs ≡ some a
    → (x ≤ a) × (block_at (a - x) bs ≡ find i bs)
unfolding locate find block_at
locate-block_at i x a [] e = absurd (ground arith)
locate-block_at i x a (b ∷ bs) e = elim (Bool-cases (owns i b)) [
  | inl own ↦ ground arith
  | inr other ↦
      let e' : locate i (x + block_size b) bs ≡ some a = ground arith in
      let ih = locate-block_at i (x + block_size b) a bs e' in
      let away : a - (x + block_size b) ≡ a - x - block_size b = omega arith in
      (omega (arith, ih.0), ground (arith, ih.0, ap (λ k. block_at k bs) away, ih.1))
]

pub modify_at-alter :
    (i x a : ℕ) (f : Block → Block) (bs : List Block)
    → locate i x bs ≡ some a
    → modify_at f (a - x) bs ≡ alter i f bs
unfolding locate alter modify_at
modify_at-alter i x a f [] e = absurd (ground arith)
modify_at-alter i x a f (b ∷ bs) e = elim (Bool-cases (owns i b)) [
  | inl own ↦ ground arith
  | inr other ↦
      let e' : locate i (x + block_size b) bs ≡ some a = ground arith in
      let far : x + block_size b ≤ a = (locate-block_at i (x + block_size b) a bs e').0 in
      let away : a - (x + block_size b) ≡ a - x - block_size b = omega arith in
      ground
        (arith, ap (λ k. modify_at f k bs) away, modify_at-alter i (x + block_size b) a f bs e')
]
