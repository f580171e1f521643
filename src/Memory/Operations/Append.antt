-- ===== src/Memory/Operations/Append.antt =====
-- A new block behind the others, and the free handle it gets.
use chromatron.Base.{
  ℕ, zero, suc, ◌+◌, ◌<◌, ◌≡◌, ◌≢◌, refl, ◌∙◌, ap, false, Option, none, some, List, [], ◌∷◌, ◌++◌,
  length, get_or, All, arith, Option-cases, inl, inr,
}
use chromatron.Memory.{Block, block_size, extent, canary_value, bytes_at, free_handle}
use chromatron.Memory.Blocks.{locate, find, IsDistinct}
use chromatron.Memory.Sound.{clean_extent, dirty_extent, clean_data, clean_count}

pub free_handle_lem :
    (hs : List (Option ℕ)) (i : ℕ)
    → free_handle hs ≡ some i
    → (i < length hs) × (get_or hs i none ≡ none)
unfolding free_handle
free_handle_lem [] i e = absurd (ground arith)
free_handle_lem (none ∷ hs) i e = let z : i ≡ 0 = ground arith in rw z (omega arith, refl)
free_handle_lem (some a ∷ hs) i e = elim (Option-cases (free_handle hs)) [
  | inl full ↦ absurd (ground (arith, full))
  | inr (j, f) ↦
      let z : i ≡ suc j = ground (arith, f) in
      let ih = free_handle_lem hs j f in rw z (omega (arith, ih.0), ih.1)
]

pub length-bytes_at : (old : ℕ → ℕ) (n : ℕ) → length (bytes_at old n) ≡ n
unfolding bytes_at
length-bytes_at old zero = refl
length-bytes_at old (suc n) = ap suc (length-bytes_at (λ i. old (i + 1)) n)

-- A clean block with a new handle behind the others.
module _ (n : ℕ) (b : Block) (clean : b.dirty ≡ false) where
  pub locate-append_other :
      (i x : ℕ) (bs : List Block) → b.handle ≢ i → locate i x (bs ++ (b ∷ [])) ≡ locate i x bs
  unfolding locate
  locate-append_other i x [] ne = ground arith
  locate-append_other i x (c ∷ bs) ne =
      ground (arith, locate-append_other i (x + block_size c) bs ne)

  pub locate-append_new :
      (x : ℕ) (bs : List Block)
      → find b.handle bs ≡ none
      → locate b.handle x (bs ++ (b ∷ [])) ≡ some (x + extent bs)
  unfolding locate find
  locate-append_new x [] e = ground arith
  locate-append_new x (c ∷ bs) e = ground (arith, locate-append_new (x + block_size c) bs)

  pub find-append_other :
      (i : ℕ) (bs : List Block) → b.handle ≢ i → find i (bs ++ (b ∷ [])) ≡ find i bs
  unfolding find
  find-append_other i [] ne = ground arith
  find-append_other i (c ∷ bs) ne = ground (arith, find-append_other i bs ne)

  pub find-append_new :
      (bs : List Block) → find b.handle bs ≡ none → find b.handle (bs ++ (b ∷ [])) ≡ some b
  unfolding find
  find-append_new [] e = ground arith
  find-append_new (c ∷ bs) e = ground (arith, find-append_new bs)

  pub IsDistinct-append :
      (bs : List Block)
      → b.handle < n
      → find b.handle bs ≡ none
      → IsDistinct n bs
      → IsDistinct n (bs ++ (b ∷ []))
  unfolding IsDistinct find
  IsDistinct-append [] lt new s = (λ e. (lt, refl), tt)
  IsDistinct-append (c ∷ bs) lt new s = (
    λ e.
        let differ : b.handle ≢ c.handle = λ same. ground (arith, new, e, same) in
        ((s.0 e).0, find-append_other c.handle bs differ ∙ (s.0 e).1),
    IsDistinct-append bs lt (ground (arith, new)) s.1,
  )

  pub sums-append :
      (bs : List Block)
      → (extent (bs ++ (b ∷ [])) ≡ extent bs + block_size b)
        × (clean_extent (bs ++ (b ∷ [])) ≡ clean_extent bs + block_size b)
        × (dirty_extent (bs ++ (b ∷ [])) ≡ dirty_extent bs)
        × (clean_data (bs ++ (b ∷ [])) ≡ clean_data bs + length b.payload)
        × (clean_count (bs ++ (b ∷ [])) ≡ clean_count bs + 1)
  unfolding clean_extent dirty_extent clean_data clean_count
  sums-append [] = ground arith
  sums-append (c ∷ bs) = ground (arith, sums-append bs)

  pub canaries-append :
      (bs : List Block)
      → b.canary ≡ canary_value
      → All (λ c. c.canary ≡ canary_value) bs
      → All (λ c. c.canary ≡ canary_value) (bs ++ (b ∷ []))
  canaries-append [] e all = (e, tt)
  canaries-append (c ∷ bs) e all = (all.0, canaries-append bs e all.1)
