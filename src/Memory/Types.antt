-- ===== src/Memory/Types.antt =====
-- The heap of src/sapphireos/memory.c: its blocks, its state and the access through offsets.
use Prim.Native.Nat.{zero, suc}
use chromatron.Base.{
  ℕ, ◌+◌, ◌-◌, ◌%◌, ◌^◌, Bool, Option, none, some, List, [], ◌∷◌, ltb, ◌==◌, if◌then◌else◌, length,
  get_or,
}
use chromatron.Base.Bytes.{◌>>=◌}

-- `mem_block_header_t` with the data and the canary behind it. `size` is the number of data bytes, and
-- the bit MEM_SIZE_DIRTY_MASK is `dirty`.
pub record Block : Type 0 where
  pub dirty : Bool
  pub handle : ℕ
  pub kind : ℕ
  pub payload : List ℕ
  pub canary : ℕ

abbrev pub canary_value : ℕ
canary_value = 0x47

-- sizeof(mem_block_header_t), and MEM_BLOCK_SIZE
abbrev pub header_size : ℕ
header_size = 4

abbrev pub block_size : Block → ℕ
block_size b = header_size + length b.payload + 1

-- where `free_space_ptr` points, behind the blocks
abbrev pub extent : List Block → ℕ
extent [] = 0
extent (b ∷ bs) = block_size b + extent bs

-- `mem_rt_data_t` with the heap up to `free_space_ptr`, the handle table, which holds offsets from
-- `heap`, and the two counters. A `mem_handle_t` is an int8_t: the code works with fewer than 128 handles,
-- which is a part of the invariant, and alloc gives none past 127.
pub record Heap : Type 0 where
  pub blocks : List Block
  pub handles : List (Option ℕ)
  pub heap_size : ℕ
  pub handles_used : ℕ
  pub free_space : ℕ
  pub used_space : ℕ
  pub dirty_space : ℕ
  pub data_space : ℕ
  pub peak_usage : ℕ
  pub allocs : ℕ
  pub alloc_fails : ℕ

-- the additions and subtractions of a `uint16_t`
abbrev pub plus16 : ℕ → ℕ → ℕ
plus16 a b = (a + b) % 2 ^ 16

abbrev pub minus16 : ℕ → ℕ → ℕ
minus16 a b = (a + 2 ^ 16 - b) % 2 ^ 16

abbrev pub none_of : ℕ → List (Option ℕ)
none_of zero = []
none_of (suc n) = none ∷ none_of n

-- mem2_v_init, with the size of the heap and MAX_MEM_HANDLES
unfoldable pub init : ℕ → ℕ → Heap
init size max_handles = record {
  blocks = [];
  handles = none_of max_handles;
  heap_size = size;
  handles_used = 0;
  free_space = size;
  used_space = 0;
  dirty_space = 0;
  data_space = 0;
  peak_usage = 0;
  allocs = 0;
  alloc_fails = 0;
}

-- the block that an offset leads to
unfoldable pub block_at : ℕ → List Block → Option Block
block_at a [] = none
block_at a (b ∷ bs) =
    if a == 0 then some b else if ltb a (block_size b) then none else block_at (a - block_size b) bs

-- a write to the block at an offset
unfoldable pub modify_at : (Block → Block) → ℕ → List Block → List Block
modify_at f a [] = []
modify_at f a (b ∷ bs) =
    if a == 0
    then f b ∷ bs
    else if ltb a (block_size b)
    then b ∷ bs
    else b ∷ modify_at f (a - block_size b) bs

-- `handles[index]`, with the block there
unfoldable pub block_of : Heap → ℕ → Option Block
block_of m index = do a ← get_or m.handles index none; block_at a m.blocks
