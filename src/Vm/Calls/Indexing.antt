-- ===== src/Vm/Calls/Indexing.antt =====
-- opcode_lta and opcode_lfa: one element of an array in the data.
use chromatron.Base.{
  ◌⊎◌, ℕ, ◌+◌, ◌-◌, ◌%◌, ◌^◌, ◌≤◌, ◌<◌, ◌≡◌, ◌≢◌, ◌∙◌, false, some, List, if◌then◌else◌, get_elem?,
  get_or, set, length, arith,
}
use chromatron.Word.{IsWord, is_neg, magnitude, neg32, add32, smod}
use chromatron.Vm.Types.{Env}
use chromatron.Vm.Cpu.{Cpu, dispatch, ◌>>=◌, pure, guard}
use chromatron.Vm.Cpu.Steps.{bind-some, load-some, store-some, fetch-some, operand-some}
use chromatron.Vm.Calls.{wrap_index, lta, lfa}

-- The address of the element: from the base upwards for an index that is not negative, and downwards
-- for one that is.
abbrev pub element : ℕ → ℕ → ℕ → ℕ
element base index size =
    if is_neg index then base - (2 ^ 32 - index) % size else base + index % size

module _ (base index size : ℕ) (hi : IsWord index) (hs : size < 2 ^ 31) (pos : size ≢ 0)
    (room : base + size < 2 ^ 31) where
  smod-lt : index < 2 ^ 31 → smod index size ≡ index % size
  unfolding smod magnitude
  smod-lt h = ground arith

  smod-ge : 2 ^ 31 ≤ index → smod index size ≡ (2 ^ 32 - (2 ^ 32 - index) % size) % 2 ^ 32
  unfolding smod magnitude neg32
  smod-ge h = ground arith

  -- A negative index may point below the base, so far as there are cells.
  element_address :
      (is_neg index ≡ false) ⊎ ((2 ^ 32 - index) % size ≤ base)
      → add32 base (smod index size) ≡ element base index size
  unfolding add32
  element_address h = ground (arith, smod-lt, smod-ge)

-- The code at `pc` has the operands of an access: two bytes, and the addresses of index and size.
pub record Operands {G : Type 0} (stream : List ℕ) (c : Cpu G) (x y i s : ℕ) : Type 0 where
  pub first : get_elem? stream c.pc ≡ some x
  pub second : get_elem? stream (c.pc + 1) ≡ some y
  pub index_at : get_elem? stream (c.pc + 1 + 1) ≡ some i
  pub size_at : get_elem? stream (c.pc + 1 + 1 + 1) ≡ some s
  pub index_in : i < length c.data_table
  pub size_in : s < length c.data_table
  pub index_word : IsWord (get_or c.data_table i 0)
  pub size_small : get_or c.data_table s 0 < 2 ^ 31
  pub size_pos : get_or c.data_table s 0 ≢ 0

module _ {G : Type 0} (env : Env G) (stream : List ℕ) where
  wrap_index-some :
      (index size : ℕ) (c : Cpu G)
      → size ≢ 0
      → wrap_index env stream index size c ≡ some (smod index size, c)
  unfolding wrap_index guard pure ◌>>=◌
  wrap_index-some index size c h = ground arith

  module _ (c : Cpu G) (x y i s : ℕ) (o : Operands stream c x y i s) where
    abbrev index : ℕ
    index = get_or c.data_table i 0

    abbrev size : ℕ
    size = get_or c.data_table s 0

    -- For an index that is not negative, or does not reach below cell 0, and addresses inside the data,
    -- opcode_lta sets the cell at `x` plus the wrapped index to cell `y`, and nothing else changes. The
    -- wrapped index keeps the sign of the index.
    pub lta_lem :
        (is_neg index ≡ false) ⊎ ((2 ^ 32 - index) % size ≤ x)
        → x + size < 2 ^ 31
        → y < length c.data_table
        → element x index size < length c.data_table
        → lta env stream c
          ≡ some (
            dispatch,
            record c {
              pc = c.pc + 1 + 1 + 1 + 1;
              data_table = set c.data_table (element x index size) (get_or c.data_table y 0);
            },
          )
    unfolding lta pure
    lta_lem reach room hy inside =
        bind-some _ _ (fetch-some stream c o.first)
        ∙ bind-some _ _ (fetch-some stream _ o.second)
        ∙ bind-some _ _ (operand-some stream _ o.index_at o.index_in)
        ∙ bind-some _ _ (operand-some stream _ o.size_at o.size_in)
        ∙ bind-some _ _ (wrap_index-some index size _ o.size_pos)
        ∙ bind-some _ _ (load-some y _ hy)
        ∙ rw (element_address x index size o.index_word o.size_small o.size_pos room reach)
            (bind-some _ _ (store-some (element x index size) (get_or c.data_table y 0) _ inside))

    -- For an index that is not negative, or does not reach below cell 0, and addresses inside the data,
    -- opcode_lfa sets cell `x` to the cell at `y` plus the wrapped index, and nothing else changes. The
    -- wrapped index keeps the sign of the index.
    pub lfa_lem :
        (is_neg index ≡ false) ⊎ ((2 ^ 32 - index) % size ≤ y)
        → y + size < 2 ^ 31
        → x < length c.data_table
        → element y index size < length c.data_table
        → lfa env stream c
          ≡ some (
            dispatch,
            record c {
              pc = c.pc + 1 + 1 + 1 + 1;
              data_table = set c.data_table x (get_or c.data_table (element y index size) 0);
            },
          )
    unfolding lfa pure
    lfa_lem reach room hx inside =
        bind-some _ _ (fetch-some stream c o.first)
        ∙ bind-some _ _ (fetch-some stream _ o.second)
        ∙ bind-some _ _ (operand-some stream _ o.index_at o.index_in)
        ∙ bind-some _ _ (operand-some stream _ o.size_at o.size_in)
        ∙ bind-some _ _ (wrap_index-some index size _ o.size_pos)
        ∙ rw (element_address y index size o.index_word o.size_small o.size_pos room reach) (
            bind-some _ _ (load-some (element y index size) _ inside)
            ∙ bind-some _ _ (store-some x _ _ hx))
