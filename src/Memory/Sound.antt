-- ===== src/Memory/Sound.antt =====
-- The invariant of the heap: the handle table says where the clean blocks are, and the counters say how
-- much there is of each kind.
use chromatron.Base.{
  ℕ, zero, suc, ◌+◌, ◌*◌, ◌-◌, ◌≤◌, ◌<◌, ◌^◌, ◌≡◌, refl, sym, ◌∙◌, ap, false, Option, none, some,
  List, [], ◌∷◌, if◌then◌else◌, length, get_or, All, arith, Bool-cases, inl, inr, subst,
}
use chromatron.Base.Bytes.{◌>>=◌}
use chromatron.Base.Int.{pos}
use chromatron.Memory.{
  Block, Heap, block_size, extent, canary_value, init, block_at, modify_at, block_of, verify,
  checked, contents, none_of,
}
use chromatron.Memory.Blocks.{
  owns, locate, find, alter, IsDistinct, find-none, locate-block_at, modify_at-alter,
}

-- Bytes in clean and in dirty blocks, data bytes in clean blocks, and their number.
unfoldable pub clean_extent : List Block → ℕ
clean_extent [] = 0
clean_extent (b ∷ bs) = (if b.dirty then 0 else block_size b) + clean_extent bs

unfoldable pub dirty_extent : List Block → ℕ
dirty_extent [] = 0
dirty_extent (b ∷ bs) = (if b.dirty then block_size b else 0) + dirty_extent bs

unfoldable pub clean_data : List Block → ℕ
clean_data [] = 0
clean_data (b ∷ bs) = (if b.dirty then 0 else length b.payload) + clean_data bs

unfoldable pub clean_count : List Block → ℕ
clean_count [] = 0
clean_count (b ∷ bs) = (if b.dirty then 0 else 1) + clean_count bs

pub record IsSound (m : Heap) : Type 0 where
  pub index : (i : ℕ) → get_or m.handles i none ≡ locate i 0 m.blocks
  pub distinct : IsDistinct (length m.handles) m.blocks
  pub canaries : All (λ b. b.canary ≡ canary_value) m.blocks
  pub room : m.free_space + extent m.blocks ≡ m.heap_size
  pub used : m.used_space ≡ clean_extent m.blocks
  pub dirt : m.dirty_space ≡ dirty_extent m.blocks
  pub stored : m.data_space ≡ clean_data m.blocks
  pub counted : m.handles_used ≡ clean_count m.blocks
  pub peak : m.used_space ≤ m.peak_usage
  pub small : m.heap_size < 2 ^ 15
  pub table : length m.handles < 2 ^ 7

pub extents : (bs : List Block) → clean_extent bs + dirty_extent bs ≡ extent bs
unfolding clean_extent dirty_extent
extents [] = omega arith
extents (b ∷ bs) = ground (arith, extents bs)

pub clean_bounds : (bs : List Block) → clean_data bs + 5 * clean_count bs ≡ clean_extent bs
unfolding clean_extent clean_data clean_count
clean_bounds [] = omega arith
clean_bounds (b ∷ bs) = ground (arith, clean_bounds bs)

get_or-none_of : (n i : ℕ) → get_or (none_of n) i none ≡ none
get_or-none_of zero i = refl
get_or-none_of (suc n) zero = refl
get_or-none_of (suc n) (suc i) = get_or-none_of n i

length-none_of : (n : ℕ) → length (none_of n) ≡ n
length-none_of zero = refl
length-none_of (suc n) = ap suc (length-none_of n)

-- An empty heap is sound.
pub init-IsSound :
    (size max_handles : ℕ) → size < 2 ^ 15 → max_handles < 2 ^ 7 → IsSound (init size max_handles)
unfolding init IsDistinct clean_extent dirty_extent clean_data clean_count locate
init-IsSound size max_handles h few = record {
  index = get_or-none_of max_handles;
  distinct = tt;
  canaries = tt;
  room = omega arith;
  used = refl;
  dirt = refl;
  stored = refl;
  counted = refl;
  peak = omega arith;
  small = h;
  table = subst (λ n. n < 2 ^ 7) (sym (length-none_of max_handles)) few;
}

-- A block that is found is clean, and has a whole canary where all have.
pub find_clean :
    (i : ℕ) (bs : List Block) {b : Block}
    → All (λ c. c.canary ≡ canary_value) bs
    → find i bs ≡ some b
    → (b.dirty ≡ false) × (b.handle ≡ i) × (b.canary ≡ canary_value)
unfolding find
find_clean i [] all e = absurd (ground arith)
find_clean i (c ∷ bs) {b} all e = elim (Bool-cases (owns i c)) [
  | inl own ↦ ground (arith, all.0)
  | inr other ↦ let e' : find i bs ≡ some b = ground arith in find_clean i bs all.1 e'
]

module _ (m : Heap) (s : IsSound m) where
  -- The handle table leads to the clean block of a handle, if there is one.
  pub block_of-find : (i : ℕ) → block_of m i ≡ find i m.blocks
  unfolding block_of
  block_of-find i = rw (s.index i) (go (locate i 0 m.blocks) refl)
    where
      go :
          (r : Option ℕ)
          → locate i 0 m.blocks ≡ r
          → (r >>= λ a. block_at a m.blocks) ≡ find i m.blocks
      go none e = sym (find-none i 0 m.blocks e)
      go (some a) e =
          let away : a ≡ a - 0 = omega arith in
          ap (λ k. block_at k m.blocks) away ∙ (locate-block_at i 0 a m.blocks e).1

  -- The assert lets a handle through where it has a clean block.
  pub checked-find :
      (i : ℕ) {b : Block} → find i m.blocks ≡ some b → checked m (pos (suc i)) ≡ some i
  unfolding checked verify
  checked-find i {b} e =
      let here : block_of m i ≡ some b = block_of-find i ∙ e in
      rw (checked, verify, here) (ground (arith, find_clean i m.blocks s.canaries e))

  pub checked-none : (i : ℕ) → find i m.blocks ≡ none → checked m (pos (suc i)) ≡ none
  unfolding checked verify
  checked-none i e =
      let here : block_of m i ≡ none = block_of-find i ∙ e in rw (checked, verify, here) refl

  pub contents-find : (i : ℕ) → contents (pos (suc i)) m ≡ (do b ← find i m.blocks; some b.payload)
  unfolding contents
  contents-find i = go (find i m.blocks) refl
    where
      go :
          (r : Option Block)
          → find i m.blocks ≡ r
          → (do k ← checked m (pos (suc i)); b ← block_of m k; some b.payload)
            ≡ (do b ← find i m.blocks; some b.payload)
      go none e = rw (checked-none i e, e) refl
      go (some b) e = rw (checked-find i e, block_of-find i, e) refl

  -- A block that is found is where the table says, for reads and for writes.
  pub entry :
      (i : ℕ) {b : Block}
      → find i m.blocks ≡ some b
      → (a : ℕ) × (get_or m.handles i none ≡ some a)
        × (locate i 0 m.blocks ≡ some a)
        × (block_at a m.blocks ≡ some b)
        × ((f : Block → Block) → modify_at f a m.blocks ≡ alter i f m.blocks)
  entry i {b} owned = go (locate i 0 m.blocks) refl
    where
      go :
          (r : Option ℕ)
          → locate i 0 m.blocks ≡ r
          → (a : ℕ) × (get_or m.handles i none ≡ some a)
            × (locate i 0 m.blocks ≡ some a)
            × (block_at a m.blocks ≡ some b)
            × ((f : Block → Block) → modify_at f a m.blocks ≡ alter i f m.blocks)
      go none e = absurd (ground (arith, find-none i 0 m.blocks e, owned))
      go (some a) e =
          let away : a ≡ a - 0 = omega arith in
          (
            a,
            s.index i ∙ e,
            e,
            ap (λ k. block_at k m.blocks) away ∙ (locate-block_at i 0 a m.blocks e).1 ∙ owned,
            λ f. ap (λ k. modify_at f k m.blocks) away ∙ modify_at-alter i 0 a f m.blocks e,
          )
