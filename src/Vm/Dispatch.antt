-- ===== src/Vm/Dispatch.antt =====
-- `_vm_i8_run_stream`: the opcode table, and the jump to a label.
pub mod Keeps
use chromatron.Base.{ℕ, List, [], ◌∷◌, get_or}
use chromatron.Vm.Types.{Attr, ArrayOp, Env, Status}
use chromatron.Vm.Cpu.{Flow, return, Exec, pure}
use chromatron.Vm.Opcodes.{Alu}
use chromatron.Vm.Labels
use chromatron.Vm.Calls

-- The labels, those of one shape with the operation as an argument.
pub data Opcode : Type 0 where
  mov clr not_op : Opcode
  compute : Alu → Opcode
  jmp jmp_if_z jmp_if_not_z jmp_if_z_dec jmp_if_gte jmp_if_l_pre_inc : Opcode
  print ret call_op : Opcode
  lta lfa lfa2d lta2d : Opcode
  set_pixel get_pixel : Attr → Opcode
  array : ArrayOp → Opcode
  rand assert_op halt is_fading lib_call obj_load obj_store db_load db_store trap : Opcode

-- `opcode_table`, up to its last entry that is not `opcode_trap`.
abbrev opcode_table : List Opcode
opcode_table =
    Opcode.mov
    ∷ Opcode.clr
    ∷ Opcode.compute Alu.compeq
    ∷ Opcode.compute Alu.compneq
    ∷ Opcode.compute Alu.compgt
    ∷ Opcode.compute Alu.compgte
    ∷ Opcode.compute Alu.complt
    ∷ Opcode.compute Alu.complte
    ∷ Opcode.compute Alu.and
    ∷ Opcode.compute Alu.or
    ∷ Opcode.compute Alu.plus
    ∷ Opcode.compute Alu.minus
    ∷ Opcode.compute Alu.times
    ∷ Opcode.compute Alu.over
    ∷ Opcode.compute Alu.modulo
    ∷ Opcode.jmp
    ∷ Opcode.jmp_if_z
    ∷ Opcode.jmp_if_not_z
    ∷ Opcode.jmp_if_z_dec
    ∷ Opcode.jmp_if_gte
    ∷ Opcode.jmp_if_l_pre_inc
    ∷ Opcode.print
    ∷ Opcode.ret
    ∷ Opcode.call_op
    ∷ Opcode.lta
    ∷ Opcode.lfa
    ∷ Opcode.lfa2d
    ∷ Opcode.lta2d
    ∷ Opcode.set_pixel Attr.hue
    ∷ Opcode.set_pixel Attr.sat
    ∷ Opcode.set_pixel Attr.val
    ∷ Opcode.get_pixel Attr.hue
    ∷ Opcode.get_pixel Attr.sat
    ∷ Opcode.get_pixel Attr.val
    ∷ Opcode.array ArrayOp.add
    ∷ Opcode.array ArrayOp.sub
    ∷ Opcode.array ArrayOp.mul
    ∷ Opcode.array ArrayOp.div
    ∷ Opcode.array ArrayOp.mod_op
    ∷ Opcode.array ArrayOp.mov
    ∷ Opcode.rand
    ∷ Opcode.assert_op
    ∷ Opcode.halt
    ∷ Opcode.is_fading
    ∷ Opcode.lib_call
    ∷ Opcode.trap
    ∷ Opcode.trap
    ∷ Opcode.trap
    ∷ Opcode.trap
    ∷ Opcode.get_pixel Attr.hs_fade
    ∷ Opcode.get_pixel Attr.v_fade
    ∷ Opcode.set_pixel Attr.hs_fade
    ∷ Opcode.set_pixel Attr.v_fade
    ∷ Opcode.trap
    ∷ Opcode.obj_load
    ∷ Opcode.obj_store
    ∷ Opcode.not_op
    ∷ Opcode.db_load
    ∷ Opcode.db_store
    ∷ []

unfoldable pub decode : ℕ → Opcode
decode n = get_or opcode_table n Opcode.trap

module _ {G : Type 0} (env : Env G) (stream : List ℕ) where
  unfoldable pub exec : Opcode → Exec G Flow
  exec Opcode.mov = Labels.mov env stream
  exec Opcode.clr = Labels.clr env stream
  exec Opcode.not_op = Labels.not_op env stream
  exec Opcode.jmp = Labels.jmp env stream
  exec Opcode.jmp_if_z = Labels.jmp_if_z env stream
  exec Opcode.jmp_if_not_z = Labels.jmp_if_not_z env stream
  exec Opcode.jmp_if_z_dec = Labels.jmp_if_z_dec env stream
  exec Opcode.jmp_if_gte = Labels.jmp_if_gte env stream
  exec Opcode.jmp_if_l_pre_inc = Labels.jmp_if_l_pre_inc env stream
  exec Opcode.print = Labels.print env stream
  exec Opcode.ret = Labels.ret env stream
  exec Opcode.call_op = Labels.call_op env stream
  exec (Opcode.compute f) = Labels.compute env stream f
  exec Opcode.lta = Calls.lta env stream
  exec Opcode.lfa = Calls.lfa env stream
  exec Opcode.lfa2d = Calls.lfa2d env stream
  exec Opcode.lta2d = Calls.lta2d env stream
  exec Opcode.rand = Calls.rand env stream
  exec Opcode.assert_op = Calls.assert_op env stream
  exec Opcode.is_fading = Calls.is_fading env stream
  exec Opcode.lib_call = Calls.lib_call env stream
  exec Opcode.obj_load = Calls.obj_load env stream
  exec Opcode.obj_store = Calls.obj_store env stream
  exec Opcode.db_load = Calls.db_load env stream
  exec Opcode.db_store = Calls.db_store env stream
  exec (Opcode.set_pixel attr) = Calls.set_pixel env stream attr
  exec (Opcode.get_pixel attr) = Calls.get_pixel env stream attr
  exec (Opcode.array op) = Calls.array env stream op
  exec Opcode.halt = pure (return Status.halt)
  exec Opcode.trap = pure (return Status.trap)
