-- ===== src/Vm/Calls.antt =====
-- The code behind the labels of `_vm_i8_run_stream` that index arrays, call the graphics or the
-- database, or stop the run.
pub mod Indexing
pub mod Values
use chromatron.Base.{ℕ, ◌+◌, ◌%◌, not, some, List, leb, ◌==◌, if◌then◌else◌}
use chromatron.Word.{word, add32, mul32, sub32, smod, to_u16}
use chromatron.Vm.Types.{Attr, ArrayOp, Env, Status}
use chromatron.Vm.Cpu.{
  Flow, dispatch, return, Exec, ◌>>=◌, ◌>>◌, pure, load, store, effect, ask, guard, fetch, operand,
  hash,
}
use chromatron.Vm.Opcodes.{pixel_value, array_each}
use chromatron.Vm.Labels.{draw, params, invoke, read_db}

-- The address of an element is an `int32_t` sum. As a bit pattern it is outside the data where the
-- sum is negative.
module _ {G : Type 0} (env : Env G) (stream : List ℕ) where
  -- `index %= size`, undefined for a size of 0
  unfoldable pub wrap_index : ℕ → ℕ → Exec G ℕ
  wrap_index index size = do guard (not (size == 0)); pure (smod index size)

  unfoldable pub lta : Exec G Flow
  lta = do
    dest ← fetch stream
    src ← fetch stream
    index ← operand stream
    size ← operand stream
    i ← wrap_index index size
    v ← load src
    store (add32 dest i) v
    pure dispatch

  unfoldable pub lfa : Exec G Flow
  lfa = do
    dest ← fetch stream
    src ← fetch stream
    index ← operand stream
    size ← operand stream
    i ← wrap_index index size
    v ← load (add32 src i)
    store dest v
    pure dispatch

  -- index_x32 + index_y32 * size_x32, both indices wrapped
  unfoldable pub index_2d : Exec G ℕ
  index_2d = do
    index_x ← operand stream
    index_y ← operand stream
    size_x ← operand stream
    size_y ← operand stream
    x ← wrap_index index_x size_x
    y ← wrap_index index_y size_y
    pure (add32 x (mul32 y size_x))

  unfoldable pub lfa2d : Exec G Flow
  lfa2d = do
    dest ← fetch stream
    src ← fetch stream
    i ← index_2d
    v ← load (add32 src i)
    store dest v
    pure dispatch

  unfoldable pub lta2d : Exec G Flow
  lta2d = do
    dest ← fetch stream
    src ← fetch stream
    i ← index_2d
    v ← load src
    store (add32 dest i) v
    pure dispatch

  -- opcode_ltah, opcode_ltas, opcode_ltav, opcode_ltahsf, opcode_ltavf
  unfoldable pub set_pixel : Attr → Exec G Flow
  set_pixel attr = do
    src ← fetch stream
    index_x ← fetch stream
    index_y ← fetch stream
    obj ← fetch stream
    v ← load src
    x ← load index_x
    y ← load index_y
    effect (env.set_attr attr (pixel_value attr v) (to_u16 x) (to_u16 y) obj)
    pure dispatch

  -- `data[dest]` = a `uint16_t` read at a position
  unfoldable pub read_pixel : (ℕ → ℕ → ℕ → G → ℕ) → Exec G Flow
  read_pixel get = do
    dest ← fetch stream
    index_x ← fetch stream
    index_y ← fetch stream
    obj ← fetch stream
    x ← load index_x
    y ← load index_y
    v ← ask (get (to_u16 x) (to_u16 y) obj)
    store dest (to_u16 v)
    pure dispatch

  -- opcode_lfah, opcode_lfas, opcode_lfav, opcode_lfahsf, opcode_lfavf
  unfoldable pub get_pixel : Attr → Exec G Flow
  get_pixel attr = read_pixel (env.get_attr attr)

  unfoldable pub is_fading : Exec G Flow
  is_fading = read_pixel env.is_fading

  -- opcode_array_add to opcode_array_mov
  unfoldable pub array : ArrayOp → Exec G Flow
  array op = do
    obj ← fetch stream
    dest ← fetch stream
    attr ← fetch stream
    op1 ← operand stream
    size ← operand stream
    (if obj == 0
        then array_each op op1 size dest
        else (if obj == 1 then effect (env.array_op op dest attr op1) else pure tt))
    pure dispatch

  unfoldable pub rand : Exec G Flow
  rand = do
    dest ← fetch stream
    op1_addr ← fetch stream
    op2_addr ← fetch stream
    hi ← load op2_addr
    lo ← load op1_addr
    let diff : ℕ = to_u16 (sub32 hi lo)
    v ← (if diff == 0 then pure 0 else (do r ← draw env stream; pure (r % diff)))
    store dest (add32 v lo)
    pure dispatch

  -- `params` has eight cells, and `param_len` is not checked against them.
  unfoldable pub lib_call : Exec G Flow
  lib_call = do
    h ← hash stream
    dest ← fetch stream
    param_len ← fetch stream
    guard (leb param_len 8)
    ps ← params env stream param_len
    v ← invoke env stream h ps
    store dest (v % word)
    pure dispatch

  unfoldable pub assert_op : Exec G Flow
  assert_op = do op1 ← operand stream; pure (if op1 == 0 then return Status.assertion else dispatch)

  unfoldable pub obj_load : Exec G Flow
  obj_load = do
    obj ← fetch stream
    attr ← fetch stream
    op1_addr ← fetch stream
    dest ← fetch stream
    v ← ask (env.get_obj_attr obj attr op1_addr)
    store dest (v % word)
    pure dispatch

  -- object store is a no-op
  unfoldable pub obj_store : Exec G Flow
  obj_store = do
    _ ← fetch stream
    _ ← fetch stream
    _ ← fetch stream
    _ ← fetch stream
    pure dispatch

  unfoldable pub db_load : Exec G Flow
  db_load = do h ← hash stream; dest ← fetch stream; read_db env stream h dest; pure dispatch

  unfoldable pub db_store : Exec G Flow
  db_store = do
    h ← hash stream
    v ← operand stream
    effect (env.kv_set h v)
    effect (env.kv_publish h)
    pure dispatch
