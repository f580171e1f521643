-- ===== src/Vm/Opcodes/Arrays.antt =====
-- The array instructions against a map over a range of cells.
use Prim.Native.Nat.{zero, suc}
use chromatron.Base.{
  ℕ, ◌+◌, ◌≤◌, ◌<◌, ◌^◌, ◌≡◌, ◌≢◌, refl, ◌∙◌, ◌&&◌, Option, some, List, ltb, leb, ◌==◌,
  if◌then◌else◌, get_elem?, get_or, set, length, length-set, get_elem?-set_self, get_elem?-set_ne,
  get_or-set_ne, arith,
}
use chromatron.Vm.Types.{ArrayOp}
use chromatron.Vm.Cpu.{Cpu, pure}
use chromatron.Vm.Cpu.Steps.{bind-some, load-some, store-some}
use chromatron.Vm.Opcodes.{Alu, alu, cell_op, from_option, array_loop, array_each}

-- The cells that a run of an array instruction leaves: from `a`, `n` of them are replaced.
unfoldable pub map_range : (ℕ → ℕ) → ℕ → ℕ → List ℕ → List ℕ
map_range f a zero xs = xs
map_range f a (suc n) xs = map_range f (a + 1) n (set xs a (f (get_or xs a 0)))

module _ (f : ℕ → ℕ) where
  pub length-map_range : (a n : ℕ) (xs : List ℕ) → length (map_range f a n xs) ≡ length xs
  unfolding map_range
  length-map_range a zero xs = refl
  length-map_range a (suc n) xs = length-map_range (a + 1) n _ ∙ length-set xs a _

  get_elem?-set_if :
      (xs : List ℕ) (a v j : ℕ)
      → a < length xs
      → get_elem? (set xs a v) j ≡ (if a == j then some v else get_elem? xs j)
  get_elem?-set_if xs a v j h =
      ground (arith, get_elem?-set_self xs a v h, get_elem?-set_ne xs a j v)

  -- Inside the range the cell is mapped, outside it is kept.
  pub get_elem?-map_range :
      (a n j : ℕ) (xs : List ℕ)
      → a + n ≤ length xs
      → get_elem? (map_range f a n xs) j
        ≡ (if leb a j && ltb j (a + n) then some (f (get_or xs j 0)) else get_elem? xs j)
  unfolding map_range
  get_elem?-map_range a zero j xs h = ground arith
  get_elem?-map_range a (suc n) j xs h =
      let v : ℕ = f (get_or xs a 0) in
      ground (
        arith,
        get_elem?-map_range (a + 1) n j (set xs a v),
        length-set xs a v,
        get_elem?-set_if xs a v j,
        get_or-set_ne xs a j v 0,
      )

-- What the instruction of the same name does to two single cells.
abbrev pub scalar : ArrayOp → ℕ → ℕ → ℕ
scalar ArrayOp.add v op1 = alu Alu.plus v op1
scalar ArrayOp.sub v op1 = alu Alu.minus v op1
scalar ArrayOp.mul v op1 = alu Alu.times v op1
scalar ArrayOp.div v op1 = alu Alu.over v op1
scalar ArrayOp.mod_op v op1 = alu Alu.modulo v op1
scalar ArrayOp.mov v op1 = op1

-- The instructions that divide need a divisor.
abbrev pub IsDefined : ArrayOp → ℕ → Type 0
IsDefined ArrayOp.div op1 = op1 ≢ 0
IsDefined ArrayOp.mod_op op1 = op1 ≢ 0
IsDefined _ op1 = Unit

cell_op-scalar :
    (op : ArrayOp) (v op1 : ℕ) → IsDefined op op1 → cell_op op v op1 ≡ some (scalar op v op1)
unfolding cell_op alu
cell_op-scalar ArrayOp.add v op1 d = refl
cell_op-scalar ArrayOp.sub v op1 d = refl
cell_op-scalar ArrayOp.mul v op1 d = refl
cell_op-scalar ArrayOp.div v op1 d = ground arith
cell_op-scalar ArrayOp.mod_op v op1 d = ground arith
cell_op-scalar ArrayOp.mov v op1 d = refl

module _ {G : Type 0} (op : ArrayOp) (op1 : ℕ) (d : IsDefined op op1) where
  from_option-some : (c : Cpu G) {o : Option ℕ} {v : ℕ} → o ≡ some v → from_option o c ≡ some (v, c)
  unfolding from_option pure
  from_option-some c e = rw (e, from_option) refl

  array_loop-map_range :
      (n a : ℕ) (c : Cpu G)
      → a + n ≤ length c.data_table
      → array_loop op op1 n a c
        ≡ some (tt, record c { data_table = map_range (λ v. scalar op v op1) a n c.data_table })
  unfolding array_loop map_range pure
  array_loop-map_range zero a c h = refl
  array_loop-map_range (suc n) a c h =
      let v : ℕ = get_or c.data_table a 0 in
      let w : ℕ = scalar op v op1 in
      bind-some _ _ (load-some a c (omega arith))
      ∙ bind-some _ _ (from_option-some c (cell_op-scalar op v op1 d))
      ∙ bind-some _ _ (store-some a w c (omega arith))
      ∙ array_loop-map_range n (a + 1) _ (omega (arith, length-set c.data_table a w))

  -- In bounds, an array instruction does to each cell of its range what the scalar instruction does,
  -- and leaves the other cells and the rest of the state alone.
  pub array_each-scalar :
      (size dest j : ℕ) (c : Cpu G)
      → size < 2 ^ 16
      → dest + size ≤ length c.data_table
      → (table : List ℕ) × (array_each op op1 size dest c
          ≡ some (tt, record c { data_table = table }))
        × (length table ≡ length c.data_table)
        × (get_elem? table j ≡ (
            if leb dest j && ltb j (dest + size)
            then some (scalar op (get_or c.data_table j 0) op1)
            else get_elem? c.data_table j))
  unfolding array_each
  array_each-scalar size dest j c small inside = (
    map_range (λ v. scalar op v op1) dest size c.data_table,
    ground (arith, array_loop-map_range size dest c),
    length-map_range (λ v. scalar op v op1) dest size c.data_table,
    get_elem?-map_range (λ v. scalar op v op1) dest size j c.data_table inside,
  )
