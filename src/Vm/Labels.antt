-- ===== src/Vm/Labels.antt =====
-- The code behind the labels of `_vm_i8_run_stream`.
use Prim.Native.Nat.{zero, suc}
use chromatron.Base.{ℕ, ◌+◌, ◌%◌, Bool, not, none, some, List, [], ◌∷◌, ◌==◌, if◌then◌else◌}
use chromatron.Word.{word, add32, sub32, slt, sle}
use chromatron.Random.{u16_get_int_with_seed}
use chromatron.Vm.Types.{Env, Status}
use chromatron.Vm.Cpu.{
  Flow, dispatch, return, call, Exec, ◌>>=◌, ◌>>◌, pure, load, store, jump, fetch, operand, address,
}
use chromatron.Vm.Opcodes.{Alu, alu}

module _ {G : Type 0} (env : Env G) (stream : List ℕ) where
  -- `rnd_u16_get_int_with_seed( rng_seed )`
  unfoldable pub draw : Exec G ℕ
  draw c = let (v, s) = u16_get_int_with_seed c.rng_seed in some (v, record c { rng_seed = s })

  -- `pc += n`
  unfoldable pub skip : ℕ → Exec G (Unit {0})
  skip n c = some (tt, record c { pc = c.pc + n })

  -- `params[i] = data[*pc]` for the count of parameters left
  unfoldable pub params : ℕ → Exec G (List ℕ)
  params zero = pure []
  params (suc n) = do p ← operand stream; ps ← params n; pure (p ∷ ps)

  -- gfx_i32_lib_call
  unfoldable pub invoke : ℕ → List ℕ → Exec G ℕ
  invoke h ps c = let (v, g) = env.lib_call h ps c.outside in some (v, record c { outside = g })

  -- `kvdb_i8_get( hash, &data[dest] )`
  unfoldable pub read_db : ℕ → ℕ → Exec G (Unit {0})
  read_db h dest c = elim (env.kv_get h c.outside) [
    | none ↦ pure tt c
    | some v ↦ store dest (v % word) c
  ]

  -- the test of a conditional jump, and what is done where it fails
  unfoldable pub branch : Bool → ℕ → Exec G (Unit {0}) → Exec G Flow
  branch b addr other = do if b then jump addr else other; pure dispatch

  unfoldable pub mov : Exec G Flow
  mov = do dest ← fetch stream; v ← operand stream; store dest v; pure dispatch

  unfoldable pub clr : Exec G Flow
  clr = do dest ← fetch stream; store dest 0; pure dispatch

  unfoldable pub not_op : Exec G Flow
  not_op = do
    dest ← fetch stream
    v ← operand stream
    store dest (if v == 0 then 1 else 0)
    pure dispatch

  -- opcode_compeq to opcode_mod
  unfoldable pub compute : Alu → Exec G Flow
  compute f = do
    result ← fetch stream
    op1 ← operand stream
    op2 ← operand stream
    store result (alu f op1 op2)
    pure dispatch

  unfoldable pub jmp : Exec G Flow
  jmp = do addr ← address stream; jump addr; pure dispatch

  unfoldable pub jmp_if_z : Exec G Flow
  jmp_if_z = do
    op1_addr ← fetch stream
    addr ← address stream
    v ← load op1_addr
    branch (v == 0) addr (pure tt)

  unfoldable pub jmp_if_not_z : Exec G Flow
  jmp_if_not_z = do
    op1_addr ← fetch stream
    addr ← address stream
    v ← load op1_addr
    branch (not (v == 0)) addr (pure tt)

  unfoldable pub jmp_if_z_dec : Exec G Flow
  jmp_if_z_dec = do
    op1_addr ← fetch stream
    addr ← address stream
    v ← load op1_addr
    branch (v == 0) addr (store op1_addr (sub32 v 1))

  unfoldable pub jmp_if_gte : Exec G Flow
  jmp_if_gte = do
    op1_addr ← fetch stream
    op2_addr ← fetch stream
    addr ← address stream
    v ← load op1_addr
    w ← load op2_addr
    branch (sle w v) addr (pure tt)

  -- The target is read only if the jump is made.
  unfoldable pub jmp_if_l_pre_inc : Exec G Flow
  jmp_if_l_pre_inc = do
    op1_addr ← fetch stream
    op2_addr ← fetch stream
    old ← load op1_addr
    store op1_addr (add32 old 1)
    v ← load op1_addr
    w ← load op2_addr
    if slt v w then (do addr ← address stream; jump addr) else skip 2
    pure dispatch

  unfoldable pub print : Exec G Flow
  print = do _ ← operand stream; pure dispatch

  -- RETURN_VAL_ADDR is 0.
  unfoldable pub ret : Exec G Flow
  ret = do v ← operand stream; store 0 v; pure (return Status.ok)

  unfoldable pub call_op : Exec G Flow
  call_op = do addr ← address stream; pure (call addr)
