-- ===== src/Vm/Dispatch/Keeps.antt =====
-- Every instruction keeps the shape of the state: the number of data cells, their range and the cycle
-- counter.
use chromatron.Base.{
  ℕ, ◌%◌, zero, suc, List, [], ◌∷◌, if◌then◌else◌, Bool, arith, Option-cases, inl, inr,
}
use chromatron.Word.{IsWord, word, to_u16}
use chromatron.Vm.Types.{Env}
use chromatron.Vm.Cpu.{Exec, pure}
use chromatron.Vm.Cpu.Keeps.{
  Keeps, Any, Ensures, Keeps-pure, Keeps-operand-bind, Keeps-load-bind, Keeps-then, Keeps-if,
  Keeps-store, Keeps-jump, Keeps-effect, Keeps-ask, Keeps-guard, Keeps-fetch, Keeps-address,
  Keeps-hash,
}
use chromatron.Vm.Opcodes.Range.{alu-IsWord, IsWord-add32, IsWord-sub32, Keeps-array_each}
use chromatron.Vm.Labels
use chromatron.Vm.Calls
use chromatron.Vm.Dispatch.{Opcode, exec}

IsWord-mod : (v : ℕ) → IsWord (v % word)
IsWord-mod v = omega arith

IsWord-to_u16 : (v : ℕ) → IsWord (to_u16 v)
unfolding to_u16
IsWord-to_u16 v = omega arith

IsWord-not : (b : Bool) → IsWord (if b then 1 else 0)
IsWord-not b = ground arith

zero-IsWord : IsWord 0
zero-IsWord = omega arith

ruleset words =
    (alu-IsWord, IsWord-add32, IsWord-sub32, IsWord-mod, IsWord-to_u16, IsWord-not, zero-IsWord)

ruleset keeps_rules = (
  Keeps-pure, Keeps-operand-bind, Keeps-load-bind, Keeps-then, Keeps-if, Keeps-store, Keeps-jump,
  Keeps-effect, Keeps-ask, Keeps-guard, Keeps-fetch, Keeps-address, Keeps-hash, words,
)

module _ {G : Type 0} {n k : ℕ} (env : Env G) (stream : List ℕ) where
  Keeps-draw : Keeps n k Any (Labels.draw env stream)
  unfolding Labels.draw
  Keeps-draw = record {
    at = λ c s. (record { size = s.size; words = s.words; counted = s.counted }, tt);
  }

  Keeps-skip : (m : ℕ) → Keeps n k Any (Labels.skip env stream m)
  unfolding Labels.skip
  Keeps-skip m = record {
    at = λ c s. (record { size = s.size; words = s.words; counted = s.counted }, tt);
  }

  Keeps-params : (m : ℕ) → Keeps n k Any (Labels.params env stream m)
  unfolding Labels.params
  Keeps-params zero = Keeps-pure [] tt
  Keeps-params (suc m) =
      Keeps-operand-bind stream λ p _. Keeps-then (Keeps-params m) λ ps. Keeps-pure (p ∷ ps) tt

  Keeps-invoke : (h : ℕ) (ps : List ℕ) → Keeps n k Any (Labels.invoke env stream h ps)
  unfolding Labels.invoke
  Keeps-invoke h ps = record {
    at = λ c s. (record { size = s.size; words = s.words; counted = s.counted }, tt);
  }

  Keeps-read_db : (h dest : ℕ) → Keeps n k Any (Labels.read_db env stream h dest)
  unfolding Labels.read_db pure
  Keeps-read_db h dest = record {
    at = λ c s. elim (Option-cases (env.kv_get h c.outside)) [
      | inl missing ↦ rw (missing, Ensures) (s, tt)
      | inr (v, found) ↦ rw (found, Ensures) ((Keeps-store dest (v % word) (IsWord-mod v)).at c s)
    ];
  }

  Keeps-branch :
      (b : Bool) (addr : ℕ) {other : Exec G (Unit {0})}
      → Keeps n k Any other
      → Keeps n k Any (Labels.branch env stream b addr other)
  unfolding Labels.branch
  Keeps-branch b addr ko = search keeps_rules depth 20

  Keeps-wrap_index : (i size : ℕ) → Keeps n k Any (Calls.wrap_index env stream i size)
  unfolding Calls.wrap_index
  Keeps-wrap_index i size = search keeps_rules depth 20

  Keeps-index_2d : Keeps n k Any (Calls.index_2d env stream)
  unfolding Calls.index_2d
  Keeps-index_2d = search (Keeps-wrap_index, keeps_rules) depth 20

  Keeps-read_pixel : (get : ℕ → ℕ → ℕ → G → ℕ) → Keeps n k Any (Calls.read_pixel env stream get)
  unfolding Calls.read_pixel
  Keeps-read_pixel get = search keeps_rules depth 20

ruleset label_rules = (
  keeps_rules, Keeps-draw, Keeps-skip, Keeps-params, Keeps-invoke, Keeps-read_db, Keeps-branch,
  Keeps-wrap_index, Keeps-index_2d, Keeps-read_pixel, Keeps-array_each,
)

module _ {G : Type 0} {n k : ℕ} (env : Env G) (stream : List ℕ) where
  -- One case for each label.
  pub exec-Keeps : (op : Opcode) → Keeps n k Any (exec env stream op)
  unfolding exec Labels.mov Labels.clr Labels.not_op Labels.jmp Labels.jmp_if_z Labels.jmp_if_not_z
      Labels.jmp_if_z_dec Labels.jmp_if_gte Labels.jmp_if_l_pre_inc Labels.print Labels.ret
      Labels.call_op Labels.compute Calls.lta Calls.lfa Calls.lfa2d Calls.lta2d Calls.rand
      Calls.assert_op Calls.is_fading Calls.lib_call Calls.obj_load Calls.obj_store Calls.db_load
      Calls.db_store Calls.set_pixel Calls.get_pixel Calls.array
  exec-Keeps Opcode.mov = search label_rules depth 30
  exec-Keeps Opcode.clr = search label_rules depth 30
  exec-Keeps Opcode.not_op = search label_rules depth 30
  exec-Keeps Opcode.jmp = search label_rules depth 30
  exec-Keeps Opcode.jmp_if_z = search label_rules depth 30
  exec-Keeps Opcode.jmp_if_not_z = search label_rules depth 30
  exec-Keeps Opcode.jmp_if_z_dec = search label_rules depth 30
  exec-Keeps Opcode.jmp_if_gte = search label_rules depth 30
  exec-Keeps Opcode.jmp_if_l_pre_inc = search label_rules depth 30
  exec-Keeps Opcode.print = search label_rules depth 30
  exec-Keeps Opcode.ret = search label_rules depth 30
  exec-Keeps Opcode.call_op = search label_rules depth 30
  exec-Keeps Opcode.lta = search label_rules depth 30
  exec-Keeps Opcode.lfa = search label_rules depth 30
  exec-Keeps Opcode.lfa2d = search label_rules depth 30
  exec-Keeps Opcode.lta2d = search label_rules depth 30
  exec-Keeps Opcode.rand = search label_rules depth 30
  exec-Keeps Opcode.assert_op = search label_rules depth 30
  exec-Keeps Opcode.is_fading = search label_rules depth 30
  exec-Keeps Opcode.lib_call = search label_rules depth 30
  exec-Keeps Opcode.obj_load = search label_rules depth 30
  exec-Keeps Opcode.obj_store = search label_rules depth 30
  exec-Keeps Opcode.db_load = search label_rules depth 30
  exec-Keeps Opcode.db_store = search label_rules depth 30
  exec-Keeps Opcode.halt = search label_rules depth 30
  exec-Keeps Opcode.trap = search label_rules depth 30
  exec-Keeps (Opcode.compute f) = search label_rules depth 30
  exec-Keeps (Opcode.set_pixel attr) = search label_rules depth 30
  exec-Keeps (Opcode.get_pixel attr) = search label_rules depth 30
  exec-Keeps (Opcode.array op) = search label_rules depth 30
