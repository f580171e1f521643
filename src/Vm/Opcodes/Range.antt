-- ===== src/Vm/Opcodes/Range.antt =====
-- The results of the opcodes are bit patterns of 32 bits.
use chromatron.Base.{ℕ, ◌==◌, Bool-cases, inl, inr, ◌+◌, zero, suc, Bool, true, false, arith}
use chromatron.Word.{IsWord, add32, sub32, mul32, neg32, sdiv, smod}
use chromatron.Vm.Types.{ArrayOp, add, sub, mul, div, mod_op, mov}
use chromatron.Vm.Cpu.Keeps.{
  Keeps, Any, Keeps-pure, Keeps-fault, Keeps-bind, Keeps-if, Keeps-load, Keeps-store,
}
use chromatron.Vm.Opcodes.{
  truth, Alu, alu, compeq, compneq, compgt, compgte, complt, complte, and, or, plus, minus, times,
  over, modulo, cell_op, from_option, array_loop, array_each,
}

pub IsWord-add32 : (a b : ℕ) → IsWord (add32 a b)
unfolding add32
IsWord-add32 a b = omega arith

pub IsWord-sub32 : (a b : ℕ) → IsWord (sub32 a b)
unfolding sub32
IsWord-sub32 a b = omega arith

pub IsWord-mul32 : (a b : ℕ) → IsWord (mul32 a b)
unfolding mul32
IsWord-mul32 a b = omega arith

pub IsWord-sdiv : (a b : ℕ) → IsWord (sdiv a b)
unfolding sdiv neg32
IsWord-sdiv a b = ground arith

pub IsWord-smod : (a b : ℕ) → IsWord (smod a b)
unfolding smod neg32
IsWord-smod a b = ground arith

IsWord-truth : (b : Bool) → IsWord (truth b)
IsWord-truth true = omega arith
IsWord-truth false = omega arith

pub alu-IsWord : (f : Alu) (a b : ℕ) → IsWord (alu f a b)
unfolding alu
alu-IsWord compeq a b = IsWord-truth _
alu-IsWord compneq a b = IsWord-truth _
alu-IsWord compgt a b = IsWord-truth _
alu-IsWord compgte a b = IsWord-truth _
alu-IsWord complt a b = IsWord-truth _
alu-IsWord complte a b = IsWord-truth _
alu-IsWord and a b = IsWord-truth _
alu-IsWord or a b = IsWord-truth _
alu-IsWord plus a b = IsWord-add32 a b
alu-IsWord minus a b = IsWord-sub32 a b
alu-IsWord times a b = IsWord-mul32 a b
alu-IsWord over a b = ground (arith, IsWord-sdiv a b)
alu-IsWord modulo a b = ground (arith, IsWord-smod a b)

module _ {G : Type 0} {n k : ℕ} where
  Keeps-cell_op :
      (op : ArrayOp) (v op1 : ℕ)
      → IsWord op1
      → Keeps {G = G} n k IsWord (from_option (cell_op op v op1))
  unfolding from_option cell_op
  Keeps-cell_op add v op1 h = Keeps-pure _ (IsWord-add32 v op1)
  Keeps-cell_op sub v op1 h = Keeps-pure _ (IsWord-sub32 v op1)
  Keeps-cell_op mul v op1 h = Keeps-pure _ (IsWord-mul32 v op1)
  Keeps-cell_op div v op1 h = elim (Bool-cases (op1 == 0)) [
    | inl z ↦ rw z (Keeps-fault IsWord)
    | inr nz ↦ rw nz (Keeps-pure _ (IsWord-sdiv v op1))
  ]
  Keeps-cell_op mod_op v op1 h = elim (Bool-cases (op1 == 0)) [
    | inl z ↦ rw z (Keeps-fault IsWord)
    | inr nz ↦ rw nz (Keeps-pure _ (IsWord-smod v op1))
  ]
  Keeps-cell_op mov v op1 h = Keeps-pure _ h

  Keeps-array_loop :
      (op : ArrayOp) (op1 m a : ℕ) → IsWord op1 → Keeps {G = G} n k Any (array_loop op op1 m a)
  unfolding array_loop
  Keeps-array_loop op op1 zero a h = Keeps-pure tt tt
  Keeps-array_loop op op1 (suc m) a h = Keeps-bind (Keeps-load a) λ v _.
      Keeps-bind (Keeps-cell_op op v op1 h)
        λ w hw. Keeps-bind (Keeps-store a w hw) λ _ _. Keeps-array_loop op op1 m (a + 1) h

  pub Keeps-array_each :
      (op : ArrayOp) (op1 size dest : ℕ)
      → IsWord op1
      → Keeps {G = G} n k Any (array_each op op1 size dest)
  unfolding array_each
  Keeps-array_each op op1 size dest h =
      Keeps-if _ (Keeps-pure tt tt)
        (Keeps-if _ (Keeps-fault Any) (Keeps-array_loop op op1 size dest h))
