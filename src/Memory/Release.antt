-- ===== src/Memory/Release.antt =====
-- mem2_v_free and writes through a pointer, on a sound heap.
use chromatron.Base.{
  ℕ, zero, suc, ◌+◌, ◌-◌, ◌<◌, ◌^◌, ◌≡◌, ◌≢◌, refl, sym, ◌∙◌, true, false, Option, none, some, List,
  [], ◌∷◌, length, length-set, get_or, get_or-set_ne, set, All, arith, Bool-cases, inl, inr,
  ℕ_discrete, subst,
}
use chromatron.Base.Int.{pos}
use chromatron.Memory.{
  Block, Heap, block_size, extent, canary_value, plus16, minus16, release, free,
}
use chromatron.Memory.Blocks.{owns, locate, find, alter, IsDistinct, locate-none}
use chromatron.Memory.Sound.{
  IsSound, clean_extent, dirty_extent, clean_data, clean_count, extents, clean_bounds, checked-find,
  entry,
}

-- set_dirty
abbrev pub retire : Block → Block
retire c = record c { dirty = true }

module _ (i : ℕ) where
  pub find-retire_other : (j : ℕ) (bs : List Block) → i ≢ j → find j (alter i retire bs) ≡ find j bs
  unfolding find alter
  find-retire_other j [] ne = refl
  find-retire_other j (c ∷ bs) ne = ground (arith, find-retire_other j bs ne)

  locate-retire_other :
      (j x : ℕ) (bs : List Block) → i ≢ j → locate j x (alter i retire bs) ≡ locate j x bs
  unfolding locate alter
  locate-retire_other j x [] ne = refl
  locate-retire_other j x (c ∷ bs) ne =
      ground (arith, locate-retire_other j (x + block_size c) bs ne)

  alter_absent : (f : Block → Block) (bs : List Block) → find i bs ≡ none → alter i f bs ≡ bs
  unfolding find alter
  alter_absent f [] e = refl
  alter_absent f (c ∷ bs) e = ground (arith, alter_absent f bs)

  pub find-retire_self :
      (n : ℕ) (bs : List Block) → IsDistinct n bs → find i (alter i retire bs) ≡ none
  unfolding find alter IsDistinct
  find-retire_self n [] s = refl
  find-retire_self n (c ∷ bs) s = elim (Bool-cases (owns i c)) [
    | inl own ↦
        let clean : c.dirty ≡ false = ground arith in
        let same : c.handle ≡ i = ground arith in
        let gone : find i bs ≡ none = subst (λ k. find k bs ≡ none) same (s.0 clean).1 in
        ground (arith, gone)
    | inr other ↦ ground (arith, find-retire_self n bs s.1)
  ]

  find-retire_absent :
      (j : ℕ) (bs : List Block) → find j bs ≡ none → find j (alter i retire bs) ≡ none
  unfolding find alter
  find-retire_absent j [] e = refl
  find-retire_absent j (c ∷ bs) e = ground (arith, find-retire_absent j bs)

  IsDistinct-retire : (n : ℕ) (bs : List Block) → IsDistinct n bs → IsDistinct n (alter i retire bs)
  unfolding IsDistinct alter
  IsDistinct-retire n [] s = tt
  IsDistinct-retire n (c ∷ bs) s = elim (Bool-cases (owns i c)) [
    | inl own ↦ rw (alter, own) (λ e. absurd (ground arith), s.1)
    | inr other ↦
        rw (alter, other)
          (λ e. ((s.0 e).0, find-retire_absent c.handle bs (s.0 e).1), IsDistinct-retire n bs s.1)
  ]

  sums-retire :
      (bs : List Block) {b : Block}
      → find i bs ≡ some b
      → let cs : List Block = alter i retire bs in
        (extent cs ≡ extent bs)
        × (clean_extent cs + block_size b ≡ clean_extent bs)
        × (dirty_extent cs ≡ dirty_extent bs + block_size b)
        × (clean_data cs + length b.payload ≡ clean_data bs)
        × (clean_count cs + 1 ≡ clean_count bs)
  unfolding clean_extent dirty_extent clean_data clean_count find alter
  sums-retire [] e = absurd (ground arith)
  sums-retire (c ∷ bs) {b} e = elim (Bool-cases (owns i c)) [
    | inl own ↦
        let same : c ≡ b = ground arith in
        let clean : c.dirty ≡ false = ground arith in ground arith
    | inr other ↦
        let e' : find i bs ≡ some b = ground arith in ground (arith, sums-retire bs {b = b} e')
  ]

  canaries-alter :
      (f : Block → Block) (bs : List Block)
      → ((c : Block) → (f c).canary ≡ c.canary)
      → All (λ c. c.canary ≡ canary_value) bs
      → All (λ c. c.canary ≡ canary_value) (alter i f bs)
  unfolding alter
  canaries-alter f [] keeps all = tt
  canaries-alter f (c ∷ bs) keeps all = elim (Bool-cases (owns i c)) [
    | inl own ↦ rw (alter, own) (keeps c ∙ all.0, all.1)
    | inr other ↦ rw (alter, other) (all.0, canaries-alter f bs keeps all.1)
  ]

pub get_or-set_empty : (hs : List (Option ℕ)) (i : ℕ) → get_or (set hs i none) i none ≡ none
get_or-set_empty [] i = refl
get_or-set_empty (h ∷ hs) zero = refl
get_or-set_empty (h ∷ hs) (suc i) = get_or-set_empty hs i

module _ (m : Heap) (s : IsSound m) (i : ℕ) (b : Block) (owned : find i m.blocks ≡ some b) where
  -- the heap without the block
  abbrev pub released : Heap
  released = record m {
    blocks = alter i retire m.blocks;
    handles = set m.handles i none;
    handles_used = m.handles_used - 1;
    data_space = m.data_space - length b.payload;
    dirty_space = m.dirty_space + block_size b;
    used_space = m.used_space - block_size b;
  }

  released_index : (j : ℕ) → get_or released.handles j none ≡ locate j 0 released.blocks
  released_index j = elim (ℕ_discrete i j) [
    | yes same ↦
        subst (λ k. get_or (set m.handles i none) k none ≡ locate k 0 (alter i retire m.blocks))
          same
          (get_or-set_empty m.handles i
            ∙ sym (
                locate-none i 0 (alter i retire m.blocks)
                  (find-retire_self i (length m.handles) m.blocks s.distinct)))
    | no differ ↦
        get_or-set_ne m.handles i j none none differ
        ∙ s.index j
        ∙ sym (locate-retire_other i j 0 m.blocks differ)
  ]

  pub released-IsSound : IsSound released
  released-IsSound =
      let sums = sums-retire i m.blocks owned in
      record {
        index = released_index;
        distinct =
            subst (λ n. IsDistinct n (alter i retire m.blocks)) (sym (length-set m.handles i none))
              (IsDistinct-retire i (length m.handles) m.blocks s.distinct);
        canaries = canaries-alter i retire m.blocks (λ c. refl) s.canaries;
        room = omega (arith, sums.0, s.room);
        used = omega (arith, sums.1, s.used);
        dirt = omega (arith, sums.2, s.dirt);
        stored = omega (arith, sums.3, s.stored);
        counted = omega (arith, sums.4, s.counted);
        peak = omega (arith, s.peak);
        small = s.small;
        table = subst (λ n. n < 2 ^ 7) (sym (length-set m.handles i none)) s.table;
      }

  pub release_all : release i m ≡ some released
  unfolding release
  release_all =
      let (a, known, there, here, changed) = entry m s i owned in
      let sums = sums-retire i m.blocks owned in
      let bound : clean_extent m.blocks < 2 ^ 15 =
        omega (arith, s.room, s.small, extents m.blocks) in
      let one : minus16 m.handles_used 1 ≡ m.handles_used - 1 =
        omega (arith, s.counted, sums, clean_bounds m.blocks) in
      let stored : minus16 m.data_space (length b.payload) ≡ m.data_space - length b.payload =
        omega (arith, s.stored, sums, clean_bounds m.blocks) in
      let dirt : plus16 m.dirty_space (block_size b) ≡ m.dirty_space + block_size b =
        omega (arith, s.dirt, s.room, s.small, sums, extents m.blocks) in
      let used : minus16 m.used_space (block_size b) ≡ m.used_space - block_size b =
        omega (arith, s.used, sums) in
      rw (release, known, here, changed retire, one, stored, dirt, used) refl

  -- mem2_v_free of a handle that has a block: the heap stays sound, the handle has no block any more, the
  -- blocks of all other handles are what they were, and the block's bytes are dirty.
  pub free_lem :
      (m' : Heap) × (free (pos (suc i)) m ≡ some m')
      × IsSound m'
      × (find i m'.blocks ≡ none)
      × ((j : ℕ) → i ≢ j → find j m'.blocks ≡ find j m.blocks)
      × (m'.dirty_space ≡ m.dirty_space + block_size b)
      × (m'.data_space + length b.payload ≡ m.data_space)
  unfolding free
  free_lem =
      let sums = sums-retire i m.blocks owned in
      (
        released,
        rw (free, checked-find m s i owned) release_all,
        released-IsSound,
        find-retire_self i (length m.handles) m.blocks s.distinct,
        λ j differ. find-retire_other i j m.blocks differ,
        refl,
        omega (arith, sums.3, s.stored),
      )
