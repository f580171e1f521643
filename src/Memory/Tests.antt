-- ===== src/Memory/Tests.antt =====
-- Tests of the memory manager, and its theorems at concrete inputs.
use chromatron.Base.{
  ℕ, ◌+◌, ◌^◌, ◌≡◌, ◌≢◌, ◌⊎◌, refl, true, false, Option, none, some, [], ◌∷◌, arith, ltb, All,
}
use chromatron.Base.Bytes.{◌>>=◌}
use chromatron.Base.Int.{ℤ, pos}
use chromatron.Memory.{
  Heap, Block, init, alloc, free, realloc, collect, contents, verify, new_block, place, free_handle,
  bytes_at, release, checked, block_at, modify_at, block_of, exchange, copy_block, moves_apart,
}
use chromatron.Memory.Blocks.{find}
use chromatron.Memory.Collector.{collect_lem}
use chromatron.Memory.Operations.{Granted, Refused, alloc_lem}
use chromatron.Memory.Realloc.{Unchanged, Grown, realloc_lem}
use chromatron.Memory.Release.{free_lem}
use chromatron.Memory.Sound.{IsSound}
use chromatron.Memory.Steps.{Reach-IsSound, Reach, no_calls, one_more, alloc_step, free_step}

abbrev behind : Option (ℤ × Heap) → Heap
behind none = init 0 0
behind (some (h, m)) = m

abbrev zeros : ℕ → ℕ
zeros i = 0

-- A heap of 400 bytes and two handles, with a block of 130 bytes and one of two.
abbrev one : Heap
one = behind (alloc 130 7 zeros (init 400 2))

abbrev two : Heap
two = behind (alloc 2 8 zeros one)

two_calls : Reach (init 400 2) two
unfolding alloc init place free_handle new_block bytes_at
two_calls =
    one_more (one_more no_calls (alloc_step 130 7 zeros (pos 1) (omega arith) refl))
      (alloc_step 2 8 zeros (pos 2) (omega arith) refl)

one-IsSound : IsSound one
unfolding alloc init place free_handle new_block bytes_at
one-IsSound =
    Reach-IsSound 400 2 (omega arith) (omega arith)
      (one_more no_calls (alloc_step 130 7 zeros (pos 1) (omega arith) refl))

two-IsSound : IsSound two
two-IsSound = Reach-IsSound 400 2 (omega arith) (omega arith) two_calls

Reach-IsSound_example : IsSound two
Reach-IsSound_example = Reach-IsSound 400 2 (omega arith) (omega arith) two_calls

abbrev after : Option Heap → Heap
after none = init 0 0
after (some m) = m

-- the block of 130 bytes is free again
abbrev holed : Heap
holed = after (free (pos 1) two)

holed-IsSound : IsSound holed
unfolding alloc init place free_handle new_block bytes_at free release checked verify block_of
    block_at modify_at
holed-IsSound =
    Reach-IsSound 400 2 (omega arith) (omega arith) (one_more two_calls (free_step (pos 1) refl))

holed-apart : moves_apart 0 holed.blocks ≡ true
unfolding alloc init place free_handle new_block bytes_at free release checked verify block_of
    block_at modify_at moves_apart
holed-apart = refl

collect_lem_example :
    (m : Heap) × (collect holed ≡ some m)
    × IsSound m
    × ((i : ℕ) → find i m.blocks ≡ find i holed.blocks)
    × (ltb holed.dirty_space 128 ≡ true → m ≡ holed)
    × (ltb holed.dirty_space 128 ≡ false
        → All (λ b. b.dirty ≡ false) m.blocks
          × (m.dirty_space ≡ 0)
          × (m.free_space ≡ holed.free_space + holed.dirty_space))
collect_lem_example = collect_lem holed holed-IsSound holed-apart

alloc_lem_example : Refused one one-IsSound 2 8 zeros ⊎ Granted one one-IsSound 2 8 zeros
alloc_lem_example = alloc_lem one one-IsSound 2 8 zeros (omega arith)

-- the block of two bytes
abbrev pair : Block
pair = record { dirty = false; handle = 1; kind = 8; payload = 0 ∷ 0 ∷ []; canary = 0x47 }

two-find : find 1 two.blocks ≡ some pair
unfolding alloc init place free_handle new_block bytes_at find
two-find = refl

holed-find : find 1 holed.blocks ≡ some pair
unfolding alloc init place free_handle new_block bytes_at find free release checked verify block_of
    block_at modify_at
holed-find = refl

realloc_lem_example :
    Unchanged holed holed-IsSound 1 pair holed-find 3 zeros
    ⊎ Grown holed holed-IsSound 1 pair holed-find 3 zeros
realloc_lem_example =
    realloc_lem holed holed-IsSound 1 pair holed-find 3 zeros (omega arith) (omega arith)

free_lem_example :
    (m : Heap) × (free (pos 2) two ≡ some m)
    × IsSound m
    × (find 1 m.blocks ≡ none)
    × ((j : ℕ) → 1 ≢ j → find j m.blocks ≡ find j two.blocks)
    × (m.dirty_space ≡ two.dirty_space + 7)
    × (m.data_space + 2 ≡ two.data_space)
free_lem_example = free_lem two two-IsSound 1 pair two-find

-- the free handle is used again
realloc_run :
    (do (r, m) ← realloc (pos 2) 3 zeros holed; contents (pos 2) m) ≡ some (0 ∷ 0 ∷ 0 ∷ [])
unfolding alloc init place free_handle new_block bytes_at free release checked verify block_of
    block_at modify_at contents realloc exchange copy_block
realloc_run = refl

-- A handle of 0 reads in front of the table.
verify_zero : verify two (pos 0) ≡ none
unfolding verify
verify_zero = refl

-- A size of 2 ^ 15 makes a block that counts as dirty.
new_block_dirty : (new_block (2 ^ 15) 7 zeros 0).dirty ≡ true
unfolding new_block
new_block_dirty = refl

-- A reallocation to fewer bytes than the block has writes behind the new block.
realloc_shrink : realloc (pos 2) 1 zeros holed ≡ none
unfolding alloc init place free_handle new_block bytes_at free release checked verify block_of
    block_at modify_at contents realloc exchange copy_block
realloc_shrink = refl

-- a block of 200 bytes behind one of 130: it moves by fewer bytes than it has
overlapping : (do m ← free (pos 1) (behind (alloc 200 8 zeros one)); collect m) ≡ none
unfolding alloc init place free_handle new_block bytes_at free release checked verify block_of
    block_at modify_at collect moves_apart
overlapping = refl
