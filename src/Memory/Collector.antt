-- ===== src/Memory/Collector.antt =====
-- mem2_v_collect_garbage: the clean blocks stay as they are, in their order, and the handles follow
-- them.
pub mod Moves
use chromatron.Base.{
  ℕ, zero, suc, ◌+◌, ◌*◌, ◌-◌, ◌≤◌, ◌<◌, ◌^◌, ◌≡◌, ◌≢◌, refl, sym, ◌∙◌, ap, Bool, true, false, not,
  ◌&&◌, Option, none, some, List, [], ◌∷◌, ◌++◌, ltb, leb, ◌==◌, ==_iff, if◌then◌else◌, length,
  length-set, get_or, get_or-set_ne, get_or-set_self, set, All, arith, Bool-cases, inl, inr,
  ℕ_discrete, subst,
}
use chromatron.Memory.{
  Block, Heap, block_size, extent, canary_value, header_size, move_down, first_dirty, canaries_hold,
  collect, block_at, plus16, defrag_threshold, moves_apart,
}
use chromatron.Memory.Blocks.{
  owns, locate, find, alter, IsDistinct, locate-none, find-none, locate-block_at,
}
use chromatron.Memory.Sound.{
  IsSound, clean_extent, dirty_extent, clean_data, clean_count, extents, find_clean, clean_bounds,
}
use chromatron.Memory.Collector.Moves.{
  clean, find-clean, first_dirty_blocks, first_dirty_handles, length-first_dirty, or_else, Knows,
}

-- The clean blocks alone have the measures that they had among the others.
record IsCleaned (n : ℕ) (bs cs : List Block) : Type 0 where
  distinct : IsDistinct n cs
  canaries : All (λ b. b.canary ≡ canary_value) cs
  whole : extent cs ≡ clean_extent bs
  used : clean_extent cs ≡ clean_extent bs
  dirt : dirty_extent cs ≡ 0
  stored : clean_data cs ≡ clean_data bs
  counted : clean_count cs ≡ clean_count bs

clean-IsCleaned :
    (n : ℕ) (bs : List Block)
    → IsDistinct n bs
    → All (λ b. b.canary ≡ canary_value) bs
    → IsCleaned n bs (clean bs)
unfolding clean IsDistinct clean_extent dirty_extent clean_data clean_count
clean-IsCleaned n [] s all = record {
  distinct = tt;
  canaries = tt;
  whole = refl;
  used = refl;
  dirt = refl;
  stored = refl;
  counted = refl;
}
clean-IsCleaned n (b ∷ bs) s all =
    let ih = clean-IsCleaned n bs s.1 all.1 in
    elim (Bool-cases b.dirty) [
      | inl d ↦
          rw (clean, d)
            (record {
              distinct = ih.distinct;
              canaries = ih.canaries;
              whole = ground (arith, ih.whole);
              used = ground (arith, ih.used);
              dirt = ih.dirt;
              stored = ground (arith, ih.stored);
              counted = ground (arith, ih.counted);
            })
      | inr c ↦
          rw (clean, c)
            (record {
              distinct = (λ e. ((s.0 c).0, find-clean b.handle bs ∙ (s.0 c).1), ih.distinct);
              canaries = (all.0, ih.canaries);
              whole = ground (arith, ih.whole);
              used = ground (arith, ih.used);
              dirt = ground (arith, ih.dirt);
              stored = ground (arith, ih.stored);
              counted = ground (arith, ih.counted);
            })
    ]

clean-All : (bs : List Block) → All (λ b. b.dirty ≡ false) (clean bs)
unfolding clean
clean-All [] = tt
clean-All (b ∷ bs) = elim (Bool-cases b.dirty) [
  | inl d ↦ ground (arith, clean-All bs)
  | inr c ↦ ground (arith, clean-All bs)
]

canaries_hold-true :
    (bs : List Block) (hs : List (Option ℕ))
    → ((i a : ℕ)
        → get_or hs i none ≡ some a
        → (b : Block) × (block_at a bs ≡ some b) × (b.canary ≡ canary_value))
    → canaries_hold bs hs ≡ true
unfolding canaries_hold
canaries_hold-true bs [] all = refl
canaries_hold-true bs (none ∷ hs) all = canaries_hold-true bs hs (λ i. all (suc i))
canaries_hold-true bs (some a ∷ hs) all =
    let (b, there, whole) = all 0 a refl in
    rw (canaries_hold, there) (ground (arith, whole, canaries_hold-true bs hs (λ i. all (suc i))))

-- A table that locates the clean blocks leads to whole canaries.
located :
    (bs : List Block) (hs : List (Option ℕ))
    → All (λ b. b.canary ≡ canary_value) bs
    → ((i : ℕ) → get_or hs i none ≡ locate i 0 bs)
    → (i a : ℕ) → get_or hs i none ≡ some a
    → (b : Block) × (block_at a bs ≡ some b) × (b.canary ≡ canary_value)
located bs hs all known i a e = go (find i bs) refl
  where
    there : locate i 0 bs ≡ some a
    there = sym (known i) ∙ e

    go :
        (r : Option Block)
        → find i bs ≡ r
        → (b : Block) × (block_at a bs ≡ some b) × (b.canary ≡ canary_value)
    go none f = absurd (ground (arith, locate-none i 0 bs f, there))
    go (some b) f =
        let away : a ≡ a - 0 = omega arith in
        (
          b,
          ap (λ k. block_at k bs) away ∙ (locate-block_at i 0 a bs there).1 ∙ f,
          (find_clean i bs all f).2,
        )

module _ (m : Heap) (s : IsSound m) where
  abbrev moved : List Block × List (Option ℕ)
  moved = first_dirty 0 m.blocks m.handles

  moved_blocks : moved.0 ≡ clean m.blocks
  moved_blocks = first_dirty_blocks 0 m.blocks m.handles

  moved_index : (i : ℕ) → get_or moved.1 i none ≡ locate i 0 (clean m.blocks)
  moved_index i = go (locate i 0 (clean m.blocks)) refl
    where
      all : get_or moved.1 i none ≡ or_else (locate i 0 (clean m.blocks)) (get_or m.handles i none)
      all =
          first_dirty_handles (length m.handles) i 0 m.blocks m.handles refl s.distinct
            (λ j a e. s.index j ∙ e)

      go :
          (r : Option ℕ)
          → locate i 0 (clean m.blocks) ≡ r
          → get_or moved.1 i none ≡ locate i 0 (clean m.blocks)
      go none e =
          let gone : find i m.blocks ≡ none =
            sym (find-clean i m.blocks) ∙ find-none i 0 (clean m.blocks) e in
          ground (arith, all, e, s.index i, locate-none i 0 m.blocks gone)
      go (some a) e = ground (arith, all, e)

  collected : Heap
  collected = record m {
    blocks = clean m.blocks;
    handles = moved.1;
    free_space = m.free_space + m.dirty_space;
    dirty_space = 0;
  }

  collected-IsSound : IsSound collected
  unfolding collected
  collected-IsSound =
      let c = clean-IsCleaned (length m.handles) m.blocks s.distinct s.canaries in
      record {
        index = moved_index;
        distinct =
            subst (λ n. IsDistinct n (clean m.blocks))
              (sym (length-first_dirty 0 m.blocks m.handles)) c.distinct;
        canaries = c.canaries;
        room = omega (arith, s.room, s.dirt, c.whole, extents m.blocks);
        used = s.used ∙ sym c.used;
        dirt = sym c.dirt;
        stored = s.stored ∙ sym c.stored;
        counted = s.counted ∙ sym c.counted;
        peak = s.peak;
        small = s.small;
        table = subst (λ n. n < 2 ^ 7) (sym (length-first_dirty 0 m.blocks m.handles)) s.table;
      }

  collect_all :
      ltb m.dirty_space defrag_threshold ≡ false
      → moves_apart 0 m.blocks ≡ true
      → collect m ≡ some collected
  unfolding collect collected
  collect_all e apart =
      let held : canaries_hold (clean m.blocks) moved.1 ≡ true =
        canaries_hold-true (clean m.blocks) moved.1
          (located (clean m.blocks) moved.1 (collected-IsSound.canaries) moved_index) in
      let whole : plus16 m.free_space m.dirty_space ≡ m.free_space + m.dirty_space =
        omega (arith, s.room, s.dirt, s.small, extents m.blocks) in
      rw (e, apart, moved_blocks, held, whole) refl

  -- mem2_v_collect_garbage on a sound heap whose clean blocks move by at least their own size, or do not move,
  -- passes its canary check and leaves a sound heap, in which every handle has the block that it had. With less
  -- dirty space than the threshold nothing changes. Else no block is dirty, and the dirty space has become
  -- free space.
  pub collect_lem :
      moves_apart 0 m.blocks ≡ true
      → (m' : Heap) × (collect m ≡ some m')
        × IsSound m'
        × ((i : ℕ) → find i m'.blocks ≡ find i m.blocks)
        × (ltb m.dirty_space defrag_threshold ≡ true → m' ≡ m)
        × (ltb m.dirty_space defrag_threshold ≡ false
            → All (λ b. b.dirty ≡ false) m'.blocks
              × (m'.dirty_space ≡ 0)
              × (m'.free_space ≡ m.free_space + m.dirty_space))
  unfolding collect collected
  collect_lem apart = elim (Bool-cases (ltb m.dirty_space defrag_threshold)) [
    | inl few ↦ (
      m,
      rw (collect, few) refl,
      s,
      λ i. refl,
      λ e. refl,
      λ many. absurd (ground (arith, few, many)),
    )
    | inr many ↦ (
      collected,
      collect_all many apart,
      collected-IsSound,
      λ i. find-clean i m.blocks,
      λ few. absurd (ground (arith, few, many)),
      λ e. (clean-All m.blocks, refl, refl),
    )
  ]
