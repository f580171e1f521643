-- ===== src/Vm/Opcodes.antt =====
-- What the opcodes of `_vm_i8_run_stream` compute: the comparing and arithmetic ones, the array loops
-- and the values passed to the pixels.
pub mod Range
pub mod Arrays
use Prim.Native.Nat.{zero, suc}
use chromatron.Base.{
  ℕ, ◌+◌, ◌%◌, ◌^◌, ◌≡◌, Bool, true, false, not, ◌&&◌, ◌||◌, Option, none, some, List, [], ◌∷◌, ltb,
  leb, ◌==◌, if◌then◌else◌,
}
use chromatron.Word.{is_neg, add32, sub32, mul32, sdiv, smod, slt, sle, to_u16}
use chromatron.Random
use chromatron.Vm.Types.{
  Attr, hue, sat, val, hs_fade, v_fade, ArrayOp, add, sub, mul, div, mod_op, mov, Env, Status,
}
use chromatron.Vm.Cpu.{
  Cpu, Flow, dispatch, return, call, Exec, ◌>>=◌, ◌>>◌, pure, fault, load, store, jump, effect, ask,
  guard, fetch, operand, address, hash,
}

-- the `int` of a C test
abbrev truth : Bool → ℕ
truth b = if b then 1 else 0

-- op1 > 65535 gives 65535, op1 < 0 gives 0
unfoldable pub clamp_u16 : ℕ → ℕ
clamp_u16 a = if is_neg a then 0 else if ltb 65535 a then 65535 else a

-- What an arithmetic or comparing opcode writes to its result.
pub data Alu : Type 0 where
  compeq compneq compgt compgte complt complte and or plus minus times over modulo : Alu

unfoldable pub alu : Alu → ℕ → ℕ → ℕ
alu compeq a b = truth (a == b)
alu compneq a b = truth (not (a == b))
alu compgt a b = truth (slt b a)
alu compgte a b = truth (sle b a)
alu complt a b = truth (slt a b)
alu complte a b = truth (sle a b)
alu and a b = truth (not (a == 0) && not (b == 0))
alu or a b = truth (not (a == 0) || not (b == 0))
alu plus a b = add32 a b
alu minus a b = sub32 a b
alu times a b = mul32 a b
alu over a b = if b == 0 then 0 else sdiv a b
alu modulo a b = if b == 0 then 0 else smod a b

-- One cell of an array instruction. There the division is not guarded.
unfoldable pub cell_op : ArrayOp → ℕ → ℕ → Option ℕ
cell_op add v op1 = some (add32 v op1)
cell_op sub v op1 = some (sub32 v op1)
cell_op mul v op1 = some (mul32 v op1)
cell_op div v op1 = if op1 == 0 then none else some (sdiv v op1)
cell_op mod_op v op1 = if op1 == 0 then none else some (smod v op1)
cell_op mov v op1 = some op1

-- What `opcode_ltah` and its like pass on: a hue goes round, the others saturate.
unfoldable pub pixel_value : Attr → ℕ → ℕ
pixel_value hue v = to_u16 (smod v 65536)
pixel_value sat v = clamp_u16 v
pixel_value val v = clamp_u16 v
pixel_value hs_fade v = clamp_u16 v
pixel_value v_fade v = clamp_u16 v

module _ {G : Type 0} where
  unfoldable pub from_option : Option ℕ → Exec G ℕ
  from_option none = fault
  from_option (some v) = pure v

  -- The loop body over the cells from `a` on, for the rounds left.
  unfoldable pub array_loop : ArrayOp → ℕ → ℕ → ℕ → Exec G (Unit {0})
  array_loop op op1 zero a = pure tt
  array_loop op op1 (suc n) a = do
    v ← load a
    w ← from_option (cell_op op v op1)
    store a w
    array_loop op op1 n (a + 1)

  -- `for( uint16_t i = 0; i < size; i++ )` with an `int32_t` size. For a size above 65535 the counter
  -- wraps and the loop has no end; it first leaves the data, which has at most 16383 cells.
  unfoldable pub array_each : ArrayOp → ℕ → ℕ → ℕ → Exec G (Unit {0})
  array_each op op1 size dest =
      if is_neg size then pure tt else if ltb 65535 size then fault else array_loop op op1 size dest
