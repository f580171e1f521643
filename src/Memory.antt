-- ===== src/Memory.antt =====
-- src/sapphireos/memory.c: memory blocks behind handles, and the collector that moves them together. The
-- model follows the AVR build with asserts (ENABLE_EXTENDED_VERIFY): a failed assert, an access
-- through a handle that leads nowhere and a memcpy of bytes that overlap are `none`.
mod Types
pub mod Blocks
pub mod Collector
pub mod Sound
pub mod Operations
pub mod Release
pub mod Replace
pub mod Steps
pub mod Write
pub mod Realloc
pub mod Rename
mod Tests
use Prim.Native.Nat.{zero, suc}
use chromatron.Base.{
  ℕ, ◌+◌, ◌-◌, ◌*◌, ◌%◌, ◌^◌, Bool, true, false, not, ◌&&◌, ◌||◌, Option, none, some, List, [], ◌∷◌,
  ◌++◌, ltb, leb, ◌==◌, if◌then◌else◌, length, get_or, set, take, drop,
}
use chromatron.Base.Bytes.{◌>>=◌}
use chromatron.Base.Int.{ℤ, pos, negsuc}
unfoldable pub use chromatron.Memory.Types.*

-- mem2_b_verify_handle. A handle of 0 is not negative and reads handles[-1].
unfoldable pub verify : Heap → ℤ → Option Bool
verify m (negsuc n) = some false
verify m (pos zero) = none
verify m (pos (suc index)) = elim (block_of m index) [
  | none ↦ some false
  | some b ↦ some ((b.canary == canary_value) && not b.dirty)
]

-- the table index of a handle that passes the assert
unfoldable pub checked : Heap → ℤ → Option ℕ
checked m h = elim (verify m h) [
  | none ↦ none
  | some ok ↦ elim h [ negsuc n ↦ none | pos n ↦ if ok then some (n - 1) else none ]
]

-- the loop for a free handle
unfoldable pub free_handle : List (Option ℕ) → Option ℕ
free_handle [] = none
free_handle (none ∷ hs) = some 0
free_handle (some a ∷ hs) = do h ← free_handle hs; some (h + 1)

-- what the heap holds at the place of a new block
unfoldable pub bytes_at : (ℕ → ℕ) → ℕ → List ℕ
bytes_at old zero = []
bytes_at old (suc n) = old 0 ∷ bytes_at (λ i. old (i + 1)) n

-- The block written by alloc. A size with the dirty bit set makes a dirty block.
unfoldable pub new_block : ℕ → ℕ → (ℕ → ℕ) → ℕ → Block
new_block size kind old index = record {
  dirty = leb (2 ^ 15) (size % 2 ^ 16);
  handle = index;
  kind = kind;
  payload = bytes_at old (size % 2 ^ 15);
  canary = canary_value;
}

-- the part of alloc behind the choice of a handle
unfoldable pub place : ℕ → Block → ℕ → Heap → Option Heap
place size b index m =
    let free : ℕ = minus16 m.free_space (block_size b) in
    let used : ℕ = plus16 m.used_space (block_size b) in
    if leb free m.heap_size
    then some (record m {
      blocks = m.blocks ++ (b ∷ []);
      handles = set m.handles index (some (extent m.blocks));
      handles_used = plus16 m.handles_used 1;
      data_space = plus16 m.data_space size;
      free_space = free;
      used_space = used;
      peak_usage = if ltb m.peak_usage used then used else m.peak_usage;
      allocs = (m.allocs + 1) % 2 ^ 32;
    })
    else none

-- alloc, with what the heap holds at the place: a handle, or -1 and one more failure. The sum in the
-- test for free space is an `unsigned int` of 16 bits. `handle` is an int8_t: where it counts past 127, or
-- would be 128 as the handle given, is `none`.
unfoldable pub alloc : ℕ → ℕ → (ℕ → ℕ) → Heap → Option (ℤ × Heap)
alloc size kind old m =
    let failed : Heap = record m { alloc_fails = (m.alloc_fails + 1) % 2 ^ 32 } in
    if ltb m.free_space (plus16 size (header_size + 1))
    then some (negsuc 0, failed)
    else elim (free_handle m.handles) [
      | none ↦ if leb (2 ^ 7) (length m.handles) then none else some (negsuc 0, failed)
      | some index ↦ do
        m' ← (if leb 127 index then none else place size (new_block size kind old index) index m)
        some (pos (index + 1), m')
    ]

-- release_block, of the block `b` at `handles[index]`
unfoldable pub release : ℕ → Heap → Option Heap
release index m = do
  a ← get_or m.handles index none
  b ← block_at a m.blocks
  some (record m {
    blocks = modify_at (λ c. record c { dirty = true }) a m.blocks;
    handles = set m.handles index none;
    handles_used = minus16 m.handles_used 1;
    data_space = minus16 m.data_space (length b.payload);
    dirty_space = plus16 m.dirty_space (block_size b);
    used_space = minus16 m.used_space (block_size b);
  })

-- mem2_v_free
unfoldable pub free : ℤ → Heap → Option Heap
free h m = do index ← checked m h; release index m

-- mem2_u16_get_size
unfoldable pub get_size : ℤ → Heap → Option ℕ
get_size h m = do index ← checked m h; b ← block_of m index; some (length b.payload)

-- what mem2_vp_get_ptr gives access to
unfoldable pub contents : ℤ → Heap → Option (List ℕ)
contents h m = do index ← checked m h; b ← block_of m index; some b.payload

-- What a client of the heap does with that pointer, and no function of memory.c: it writes all bytes of
-- the block's data.
unfoldable pub write : ℤ → List ℕ → Heap → Option Heap
write h bs m = do
  index ← checked m h
  a ← get_or m.handles index none
  b ← block_at a m.blocks
  (if length bs == length b.payload
      then some (record m { blocks = modify_at (λ c. record c { payload = bs }) a m.blocks })
      else none)

-- mem2_h_get_handle, with its error codes
unfoldable pub get_handle : ℕ → ℕ → Heap → Option ℤ
get_handle index kind m =
    if leb (length m.handles) index then some (negsuc 19) else elim (get_or m.handles index none) [
      | none ↦ some (negsuc 10)
      | some a ↦ do
        b ← block_at a m.blocks
        some (if b.kind == kind then pos (index + 1) else negsuc 9)
    ]

-- The copy of mem2_i8_realloc, from the block at one offset to that at another. It copies all data of
-- the old block, and `none` is the write behind a smaller new one.
unfoldable pub copy_block : ℕ → ℕ → List Block → Option (List Block)
copy_block from to blocks = do
  old ← block_at from blocks
  new ← block_at to blocks
  (if leb (length old.payload) (length new.payload)
      then some (
          modify_at (λ c. record c { payload = old.payload ++ drop (length old.payload) c.payload })
            to blocks)
      else none)

-- mem2_i8_realloc behind its call of alloc, where that gave the block at `fresh`: the new block takes
-- the place of the old one.
unfoldable pub exchange : ℕ → ℕ → Heap → Option Heap
exchange index fresh m = do
  from ← get_or m.handles index none
  to ← get_or m.handles fresh none
  blocks ← copy_block from to m.blocks
  m' ← release index (record m { blocks = blocks })
  some (record m' {
    blocks = modify_at (λ c. record c { handle = index }) to m'.blocks;
    handles = set (set m'.handles index (some to)) fresh none;
  })

-- mem2_i8_realloc
unfoldable pub realloc : ℤ → ℕ → (ℕ → ℕ) → Heap → Option (ℤ × Heap)
realloc h size old m = do
  index ← checked m h
  b ← block_of m index
  (fresh, m1) ← alloc size b.kind old m
  elim fresh [
    | negsuc n ↦ some (negsuc 0, m1)
    | pos n ↦ do m2 ← exchange index (n - 1) m1; some (pos 0, m2)
  ]

-- The second loop of mem2_v_collect_garbage, with the dirty pointer: clean blocks move down to it.
unfoldable pub move_down : ℕ → List Block → List (Option ℕ) → List Block × List (Option ℕ)
move_down to [] handles = ([], handles)
move_down to (b ∷ bs) handles = elim b.dirty [
  | true ↦ move_down to bs handles
  | false ↦ (
    b ∷ (move_down (to + block_size b) bs (set handles b.handle (some to))).0,
    (move_down (to + block_size b) bs (set handles b.handle (some to))).1,
  )
]

-- the first loop, which passes over the clean blocks
unfoldable pub first_dirty : ℕ → List Block → List (Option ℕ) → List Block × List (Option ℕ)
first_dirty at [] handles = ([], handles)
first_dirty at (b ∷ bs) handles = elim b.dirty [
  | true ↦ move_down at (b ∷ bs) handles
  | false ↦ (
    b ∷ (first_dirty (at + block_size b) bs handles).0,
    (first_dirty (at + block_size b) bs handles).1,
  )
]

-- Whether no memcpy of the second loop overlaps: every clean block that moves has as many bytes of dirty blocks
-- in front of it as it has itself. `gap` is how far the clean pointer is ahead of the dirty one.
unfoldable pub moves_apart : ℕ → List Block → Bool
moves_apart gap [] = true
moves_apart gap (b ∷ bs) =
    if b.dirty
    then moves_apart (gap + block_size b) bs
    else ((gap == 0) || leb (block_size b) gap) && moves_apart gap bs

-- mem2_v_check_canaries
unfoldable pub canaries_hold : List Block → List (Option ℕ) → Bool
canaries_hold blocks [] = true
canaries_hold blocks (none ∷ hs) = canaries_hold blocks hs
canaries_hold blocks (some a ∷ hs) = elim (block_at a blocks) [
  | none ↦ false
  | some b ↦ (b.canary == canary_value) && canaries_hold blocks hs
]

-- MEM_DEFRAG_THRESHOLD
abbrev pub defrag_threshold : ℕ
defrag_threshold = 128

-- mem2_v_collect_garbage. A memcpy of bytes that overlap has undefined behaviour and is `none`.
unfoldable pub collect : Heap → Option Heap
collect m =
    if ltb m.dirty_space defrag_threshold
    then some m
    else (let moved = first_dirty 0 m.blocks m.handles in
        if moves_apart 0 m.blocks && canaries_hold moved.0 moved.1
        then some (record m {
          blocks = moved.0;
          handles = moved.1;
          free_space = plus16 m.free_space m.dirty_space;
          dirty_space = 0;
        })
        else none)
