-- ===== src/Vm/Image.antt =====
-- The entry points of vm_core.c over a loaded image: the byte stream, which holds code and data, and the
-- `vm_state_t` that says where they start.
pub mod Registers
pub mod Table
pub mod Frames
use Prim.Native.Nat.{zero, suc}
use chromatron.Base.{
  ℕ, ◌+◌, ◌-◌, ◌*◌, ◌%◌, ◌^◌, Bool, Option, none, some, List, [], ◌∷◌, ◌++◌, ltb, leb,
  if◌then◌else◌, take, drop, length,
}
use chromatron.Base.Bytes.{◌>>=◌, read32, write32, words, bytes}
use chromatron.Vm.Types.{max_cycles, Env, Status}
use chromatron.Vm.Cpu.{Cpu}
use chromatron.Vm.Stream.{Run, finished, faulted, out_of_fuel, run_stream}

-- `vm_state_t`. `byte0` is never used.
pub record VmState : Type 0 where
  pub code_start : ℕ
  pub data_start : ℕ
  pub prog_size : ℕ
  pub data_len : ℕ
  pub data_count : ℕ
  pub init_start : ℕ
  pub loop_start : ℕ
  pub frame_number : ℕ
  pub rng_seed : ℕ
  pub max_cycles : ℕ
  pub read_keys_count : ℕ
  pub read_keys_start : ℕ
  pub write_keys_count : ℕ
  pub write_keys_start : ℕ
  pub publish_count : ℕ
  pub publish_start : ℕ
  pub pix_obj_count : ℕ
  pub pix_obj_start : ℕ

-- A `uint8_t *stream` with its state, and the state of the graphics and of the database.
pub record Image (G : Type 0) : Type 0 where
  pub stream : List ℕ
  pub state : VmState
  pub outside : G

-- `stream + code_start`, up to the data. A fetch from the data section counts as a fault here, although it is a
-- defined read of the same stream in C: nothing is said of a program that runs its data.
unfoldable pub code_section : List ℕ → VmState → List ℕ
code_section stream st = take (st.data_start - st.code_start) (drop st.code_start stream)

-- `(int32_t *)( stream + data_start )`, of `data_count` cells
unfoldable pub data_section : List ℕ → VmState → Option (List ℕ)
data_section stream st = words st.data_count (drop st.data_start stream)

-- The stream with the cells of the data section written back. The code has a pointer into the stream and no such step:
-- a run works on the stream itself.
unfoldable pub put_data : List ℕ → VmState → List ℕ → List ℕ
put_data stream st table =
    take st.data_start stream ++ (bytes table ++ drop (st.data_start + 4 * st.data_count) stream)

pub data Outcome (G : Type 0) : Type 0 where
  returned : Status → Image G → Outcome G
  crashed : Outcome G
  unfinished : Outcome G

-- one round for each cycle of the budget, and one that finds it spent
abbrev pub cycle_fuel : ℕ
cycle_fuel = 32769

module _ {G : Type 0} where
  -- `state->rng_seed` and `state->max_cycles` after a run, and the data that it wrote
  unfoldable pub finish : Image G → Run G → Outcome G
  finish img (finished s c) = returned s (record img {
    stream = put_data img.stream img.state c.data_table;
    state = record img.state {
      rng_seed = c.rng_seed;
      max_cycles = if ltb img.state.max_cycles c.cycles then c.cycles else img.state.max_cycles;
    };
    outside = c.outside;
  })
  finish img faulted = crashed
  finish img out_of_fuel = unfinished

module _ {G : Type 0} (env : Env G) where
  -- vm_i8_run, which does not reset the cycles: the seed is the state's, the cycles are those counted
  -- before.
  abbrev pub run : List ℕ → ℕ → VmState → List ℕ → ℕ → G → Run G
  run code offset st table cycles g = run_stream env code cycle_fuel (record {
    pc = offset;
    data_table = table;
    rng_seed = st.rng_seed;
    cycles = cycles;
    outside = g;
  })

  -- the run of vm_i8_run_init and vm_i8_run_loop, with `cycles = 0`
  unfoldable pub start : Image G → ℕ → List ℕ → Run G
  start img offset table =
      run (code_section img.stream img.state) offset img.state table 0 img.outside

  -- the part that `vm_i8_run_init` and `vm_i8_run_loop` share
  unfoldable pub run_at : Image G → ℕ → Option (List ℕ) → Outcome G
  run_at img offset none = crashed
  run_at img offset (some table) = finish img (start img offset table)

  -- vm_i8_run_init
  unfoldable pub run_init : Image G → Outcome G
  run_init img =
      let img' : Image G = record img { state = record img.state { frame_number = 0 } } in
      run_at img' img'.state.init_start (data_section img'.stream img'.state)

  -- vm_i8_run_loop
  unfoldable pub run_loop : Image G → Outcome G
  run_loop img =
      let img' : Image G = record img {
        state = record img.state { frame_number = (img.state.frame_number + 1) % 2 ^ 16 };
      } in
      run_at img' img'.state.loop_start (data_section img'.stream img'.state)

-- vm_i32_get_data
unfoldable pub get_data : List ℕ → VmState → ℕ → Option ℕ
get_data stream st addr =
    if leb st.data_count addr then some 0 else read32 stream (st.data_start + 4 * addr)

-- vm_v_set_data
unfoldable pub set_data : List ℕ → VmState → ℕ → ℕ → Option (List ℕ)
set_data stream st addr v =
    if leb st.data_count addr then some stream else write32 stream (st.data_start + 4 * addr) v

-- The loop of vm_v_get_data_multi: `addr` is a `uint8_t`, and goes round at 256.
unfoldable pub copy_data : List ℕ → VmState → ℕ → ℕ → Option (List ℕ)
copy_data stream st addr zero = some []
copy_data stream st addr (suc len) = do
  v ← read32 stream (st.data_start + 4 * addr)
  vs ← copy_data stream st ((addr + 1) % 2 ^ 8) len
  some (v ∷ vs)

-- vm_v_get_data_multi: what it writes to `dest`, which is nothing where the range is out of bounds.
unfoldable pub get_data_multi : List ℕ → VmState → ℕ → ℕ → Option (List ℕ)
get_data_multi stream st addr len =
    if ltb st.data_count (addr + len) then some [] else copy_data stream st addr len
