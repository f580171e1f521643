-- ===== src/Memory/Operations.antt =====
-- mem2_h_alloc on a sound heap.
pub mod Append
use chromatron.Base.{
  ℕ, zero, suc, ◌+◌, ◌*◌, ◌-◌, ◌%◌, ◌≤◌, ◌<◌, ◌^◌, ◌≡◌, ◌≢◌, refl, sym, ◌∙◌, ap, Bool, true, false,
  not, ◌&&◌, Option, none, some, List, [], ◌∷◌, ◌++◌, ltb, leb, ◌==◌, ==_iff, if◌then◌else◌, length,
  length-set, get_or, get_or-set_ne, get_or-set_self, set, All, arith, Bool-cases, Option-cases,
  inl, inr, ℕ_discrete, dec_lt, subst, ◌⊎◌,
}
use chromatron.Base.Bytes.{◌>>=◌}
use chromatron.Base.Int.{ℤ, pos, negsuc}
use chromatron.Memory.{
  Block, Heap, block_size, extent, canary_value, header_size, block_at, modify_at, plus16, minus16,
  bytes_at, new_block, place, alloc, free_handle, release, free, checked, contents, write,
}
use chromatron.Memory.Blocks.{
  owns, locate, find, alter, IsDistinct, locate-none, find-none, locate-block_at, modify_at-alter,
}
use chromatron.Memory.Sound.{
  IsSound, clean_extent, dirty_extent, clean_data, clean_count, extents, find_clean, clean_bounds,
  checked-find, contents-find,
}
use chromatron.Memory.Operations.Append.{
  free_handle_lem, length-bytes_at, locate-append_other, locate-append_new, find-append_other,
  find-append_new, IsDistinct-append, sums-append, canaries-append,
}

-- what alloc leaves behind the choice of the handle of `b`
module _ (m : Heap) (s : IsSound m) (b : Block) (clean : b.dirty ≡ false)
    (whole : b.canary ≡ canary_value) (lt : b.handle < length m.handles)
    (open_slot : get_or m.handles b.handle none ≡ none) (fits : block_size b ≤ m.free_space) where
  placed : Heap
  placed = record m {
    blocks = m.blocks ++ (b ∷ []);
    handles = set m.handles b.handle (some (extent m.blocks));
    handles_used = m.handles_used + 1;
    data_space = m.data_space + length b.payload;
    free_space = m.free_space - block_size b;
    used_space = m.used_space + block_size b;
    peak_usage =
        if ltb m.peak_usage (m.used_space + block_size b)
        then m.used_space + block_size b
        else m.peak_usage;
    allocs = (m.allocs + 1) % 2 ^ 32;
  }

  unowned : find b.handle m.blocks ≡ none
  unowned = find-none b.handle 0 m.blocks (sym (s.index b.handle) ∙ open_slot)

  placed_index : (i : ℕ) → get_or placed.handles i none ≡ locate i 0 placed.blocks
  unfolding placed
  placed_index i = elim (ℕ_discrete b.handle i) [
    | yes same ↦
        subst
          (λ k.
            get_or (set m.handles b.handle (some (extent m.blocks))) k none
            ≡ locate k 0 (m.blocks ++ (b ∷ [])))
          same
          (get_or-set_self m.handles b.handle (some (extent m.blocks)) none lt
            ∙ ap some (omega arith)
            ∙ sym (locate-append_new (length m.handles) b clean 0 m.blocks unowned))
    | no differ ↦
        get_or-set_ne m.handles b.handle i (some (extent m.blocks)) none differ
        ∙ s.index i
        ∙ sym (locate-append_other (length m.handles) b clean i 0 m.blocks differ)
  ]

  placed-IsSound : IsSound placed
  unfolding placed
  placed-IsSound =
      let sums = sums-append (length m.handles) b clean m.blocks in
      record {
        index = placed_index;
        distinct =
            subst (λ n. IsDistinct n (m.blocks ++ (b ∷ [])))
              (sym (length-set m.handles b.handle (some (extent m.blocks))))
              (IsDistinct-append (length m.handles) b clean m.blocks lt unowned s.distinct);
        canaries = canaries-append (length m.handles) b clean m.blocks whole s.canaries;
        room = omega (arith, sums.0, s.room);
        used = omega (arith, sums.1, s.used);
        dirt = s.dirt ∙ sym sums.2;
        stored = omega (arith, sums.3, s.stored);
        counted = omega (arith, sums.4, s.counted);
        peak = ground arith;
        small = s.small;
        table =
            subst (λ n. n < 2 ^ 7) (sym (length-set m.handles b.handle (some (extent m.blocks))))
              s.table;
      }

  place_all : (size : ℕ) → size ≡ length b.payload → place size b b.handle m ≡ some placed
  unfolding place placed
  place_all size e =
      let free : minus16 m.free_space (block_size b) ≡ m.free_space - block_size b =
        omega (arith, s.room, s.small, fits) in
      let used : plus16 m.used_space (block_size b) ≡ m.used_space + block_size b =
        omega (arith, s.room, s.small, s.used, fits, extents m.blocks) in
      let more : plus16 m.handles_used 1 ≡ m.handles_used + 1 =
        omega (arith, s.room, s.small, s.counted, fits, extents m.blocks, clean_bounds m.blocks) in
      let stored : plus16 m.data_space size ≡ m.data_space + length b.payload =
        omega (arith, s.room, s.small, s.stored, fits, extents m.blocks, clean_bounds m.blocks) in
      rw (free, used, more, stored) (ground (arith, s.room))

module _ (m : Heap) (s : IsSound m) (size kind : ℕ) (old : ℕ → ℕ) where
  -- an allocation that fails
  abbrev pub Refused : Type 0
  Refused =
      (alloc size kind old m
        ≡ some (negsuc 0, record m { alloc_fails = (m.alloc_fails + 1) % 2 ^ 32 }))
      × ((m.free_space < size + 5) ⊎ (free_handle m.handles ≡ none))

  -- an allocation that succeeds
  abbrev pub Granted : Type 0
  Granted =
      (i : ℕ) × (m' : Heap) × (alloc size kind old m ≡ some (pos (suc i), m'))
      × IsSound m'
      × (find i m.blocks ≡ none)
      × (find i m'.blocks ≡ some (new_block size kind old i))
      × (length (new_block size kind old i).payload ≡ size)
      × ((j : ℕ) → i ≢ j → find j m'.blocks ≡ find j m.blocks)

  granted : (i : ℕ) → size + 5 ≤ m.free_space → free_handle m.handles ≡ some i → Granted
  unfolding alloc new_block placed
  granted i fits slot =
      let b : Block = new_block size kind old i in
      let open_slot = free_handle_lem m.handles i slot in
      let low : size % 2 ^ 15 ≡ size = omega (arith, s.room, s.small) in
      let clean : b.dirty ≡ false = ground (arith, s.room, s.small) in
      let long : size ≡ length b.payload = sym (length-bytes_at old (size % 2 ^ 15) ∙ low) in
      let enough : block_size b ≤ m.free_space = omega (arith, long) in
      let sum : plus16 size 5 ≡ size + 5 = omega (arith, s.room, s.small) in
      let test : ltb m.free_space (size + 5) ≡ false = ground arith in
      let counted : leb 127 i ≡ false = ground (arith, open_slot.0, s.table) in
      let new : find i m.blocks ≡ none = find-none i 0 m.blocks (sym (s.index i) ∙ open_slot.1) in
      (
        i,
        placed m s b clean refl open_slot.0 open_slot.1 enough,
        rw (alloc, sum, test, slot, counted)
            (rw (place_all m s b clean refl open_slot.0 open_slot.1 enough size long) (
              ap (λ k. some (pos k, placed m s b clean refl open_slot.0 open_slot.1 enough))
                (omega arith))),
        placed-IsSound m s b clean refl open_slot.0 open_slot.1 enough,
        new,
        find-append_new (length m.handles) b clean m.blocks new,
        sym long,
        λ j differ. find-append_other (length m.handles) b clean j m.blocks differ,
      )

  -- alloc of at most 65530 bytes (size + 5 < 2 ^ 16) does not fault on a sound heap. It gives -1, counts a failure
  -- and changes nothing else, where there is too little free space or no free handle. Else it gives a handle that
  -- had no block, which now has one of the size asked for, and the blocks of all other handles are what they were.
  pub alloc_lem : size + 5 < 2 ^ 16 → Refused ⊎ Granted
  unfolding alloc
  alloc_lem h = elim (dec_lt m.free_space (size + 5)) [
    | yes short ↦ inl (ground arith, inl short)
    | no long ↦ elim (Option-cases (free_handle m.handles)) [
      | inl full ↦
          let counted : leb (2 ^ 7) (length m.handles) ≡ false = ground (arith, s.table) in
          inl (rw (alloc, full, counted) (ground arith), inr full)
      | inr (i, slot) ↦ inr (granted i (omega arith) slot)
    ]
  ]
