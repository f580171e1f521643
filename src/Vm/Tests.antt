-- ===== src/Vm/Tests.antt =====
-- Tests of the interpreter, and its theorems at concrete inputs.
use chromatron.Vm.Calls.{rand}
use chromatron.Vm.Calls.Values.{rand_range}
use chromatron.Base.{
  ◌≤◌, ◌<◌, ◌⊎◌, ℕ, ◌≡◌, refl, ◌≢◌, none, some, List, [], ◌∷◌, length, take, arith, replicate,
  get_elem?,
}
use chromatron.Base.Bytes.{read32, words, bytes}
use chromatron.Word.{add32, sub32, slt}
use chromatron.Crc.{u16_block, u16_finish, u16_partial_block, u16_byte}
use chromatron.Vm.Types.{Env, Status, ArrayOp, is_error, code}
use chromatron.Vm.Cpu.{Cpu, ◌>>=◌, pure, load, store, jump, fetch, operand, address}
use chromatron.Vm.Labels
use chromatron.Vm.Dispatch.{decode, exec}
use chromatron.Vm.Stream.{out_of_fuel, run_stream, round, settle, follow, after_call}
use chromatron.Vm.Image.{
  VmState, Image, Outcome, returned, run_init, run_loop, run_at, start, finish, code_section,
  data_section, put_data,
}
use chromatron.Vm.Opcodes.{Alu, alu, array_each}
use chromatron.Vm.Opcodes.Arrays.{array_each-scalar}
use chromatron.Vm.Stream.Ends.{Ends, run_stream-Ends}
use chromatron.Vm.Eval.{eval}
use chromatron.Vm.Eval.Evaluated.{Evaluated, eval-Evaluated}
use chromatron.Vm.Image.{get_data, set_data, get_data_multi, copy_data}
use chromatron.Vm.Image.Frames.{IsLoaded, Frame, run_init-Frame, run_loop-Frame}
use chromatron.Vm.Cpu.{dispatch}
use chromatron.Vm.Image.Registers.{get_data-set_data}
use chromatron.Vm.Load.{Header, read_header, load_program}
use chromatron.Vm.Load.Accepts.{
  layout, IsWellFormed, IsAccepted, load_program_accepts, load_program_sound,
}

-- A device with no pixels and an empty database.
abbrev no_pixels : Env (Unit {0})
no_pixels = record {
  set_attr = λ a v x y o g. g;
  get_attr = λ a x y o g. 0;
  is_fading = λ x y o g. 0;
  array_op = λ f o a v g. g;
  lib_call = λ h ps g. (0, g);
  get_obj_attr = λ o a i g. 0;
  kv_get = λ h g. none;
  kv_set = λ h v g. g;
  kv_publish = λ h g. g;
}

-- A script with one read key that counts data[1] up to data[2] and returns it:
-- `jmp_if_l_pre_inc 1 2 0; ret 1`.
abbrev script : List ℕ
script =
    70 ∷ 88 ∷ 32 ∷ 32 ∷ 80 ∷ 82 ∷ 79 ∷ 71 ∷ 8 ∷ 0 ∷ 8 ∷ 0 ∷ 12 ∷ 0 ∷ 4 ∷ 0 ∷ 0 ∷ 0 ∷ 0 ∷ 0 ∷ 0 ∷ 0
    ∷ 0 ∷ 0 ∷ 0 ∷ 0 ∷ 0 ∷ 0 ∷ 205 ∷ 171 ∷ 0 ∷ 0 ∷ 67 ∷ 79 ∷ 68 ∷ 69 ∷ 20 ∷ 1 ∷ 2 ∷ 0 ∷ 0 ∷ 22 ∷ 1
    ∷ 0 ∷ 68 ∷ 65 ∷ 84 ∷ 65 ∷ 0 ∷ 0 ∷ 0 ∷ 0 ∷ 0 ∷ 0 ∷ 0 ∷ 0 ∷ 5 ∷ 0 ∷ 0 ∷ 0 ∷ 26 ∷ 54 ∷ []

abbrev header : Header
header = record {
  file = 0x20205846;
  prog = 0x474f5250;
  isa = 8;
  code_len = 8;
  data_len = 12;
  read_keys_len = 4;
  write_keys_len = 0;
  publish_len = 0;
  pix_obj_len = 0;
  init_start = 0;
  loop_start = 0;
}

abbrev image : Image (Unit {0})
image = record { stream = script; state = layout header; outside = tt }

-- vm_i8_run_init with everything that it runs.
abbrev init_script : Outcome (Unit {0})
unfolding run_init run_at start finish data_section code_section put_data run_stream round settle
    follow after_call is_error code decode exec fetch operand address load store jump ◌>>=◌ pure
    add32 slt sub32 Labels.jmp_if_l_pre_inc Labels.ret Labels.skip words bytes
init_script = run_init no_pixels image

-- It counts to 5 and returns 5, in six cycles.
init_script_counts :
    init_script
    ≡ returned Status.ok (record image {
      stream = put_data script image.state (5 ∷ 5 ∷ 5 ∷ []);
      state = record image.state { max_cycles = 6 };
    })
unfolding put_data init_script
init_script_counts = refl

script_crc : u16_block (take 62 script) ≡ 0
unfolding u16_block u16_finish u16_partial_block u16_byte
script_crc = refl

script-header : read_header script ≡ some header
unfolding read_header read32
script-header = refl

script-IsWellFormed : IsWellFormed script header
unfolding read32
script-IsWellFormed = record {
  file = refl;
  prog = refl;
  isa = refl;
  read_keys = refl;
  write_keys = refl;
  publish = refl;
  room = omega arith;
  code = refl;
  data_section = refl;
}

load_program_accepts_example : load_program 0 script 62 ≡ some (Status.ok, layout header)
load_program_accepts_example =
    load_program_accepts script header script-IsWellFormed 62 script_crc script-header

load_program_sound_example :
    (h : Header) × (u16_block (take 62 script) ≡ 0)
    × (read_header script ≡ some h)
    × IsAccepted script h (layout header)
load_program_sound_example = load_program_sound 0 62 script refl load_program_accepts_example

image-IsLoaded : IsLoaded image
image-IsLoaded = record { fits = omega arith; in_bytes = omega arith; in_budget = omega arith }

run_init-Frame_example : Frame image 0 (run_init no_pixels image)
run_init-Frame_example = run_init-Frame no_pixels image image-IsLoaded

run_loop-Frame_example : Frame image 1 (run_loop no_pixels image)
run_loop-Frame_example = run_loop-Frame no_pixels image image-IsLoaded

-- The state of a run over three cells.
abbrev cpu : Cpu (Unit {0})
cpu = record { pc = 0; data_table = 0 ∷ 3 ∷ 5 ∷ []; rng_seed = 1; cycles = 0; outside = tt }

-- `jmp 0` for ever
abbrev endless : List ℕ
endless = 15 ∷ 0 ∷ 0 ∷ []

run_stream-Ends_example : Ends 3 0 (run_stream no_pixels endless 32769 cpu)
run_stream-Ends_example =
    run_stream-Ends no_pixels endless 3 32769 cpu refl (omega arith) (omega arith) (omega arith)

-- `ret 2`
abbrev return_two : List ℕ
return_two = 22 ∷ 2 ∷ []

returns_early : run_stream no_pixels return_two 1 cpu ≢ out_of_fuel
unfolding init_script
returns_early = ground arith

eval-Evaluated_example :
    Evaluated 2 (eval no_pixels return_two (5 ∷ 6 ∷ []) (record { lfsr31 = 3; lfsr32 = 7 }) tt)
eval-Evaluated_example =
    eval-Evaluated no_pixels return_two (5 ∷ 6 ∷ []) (record { lfsr31 = 3; lfsr32 = 7 }) tt
      (omega arith)

get_data-set_data_example :
    (new : List ℕ) × (set_data script (layout header) 1 77 ≡ some new)
    × (get_data new (layout header) 1 ≡ some 77)
get_data-set_data_example =
    get_data-set_data script (layout header) (omega arith) 1 77 1 (omega arith)

-- 257 cells, the first of which is 9
abbrev many : List ℕ
many = 9 ∷ replicate 1027 0

abbrev many_state : VmState
many_state = record (layout header) { data_start = 0; data_count = 257 }

two_cells : get_data_multi many many_state 255 2 ≡ some (0 ∷ 9 ∷ [])
unfolding get_data_multi copy_data read32
two_cells = refl

array_each-scalar_example :
    (table : List ℕ) × (array_each ArrayOp.mul 2 2 1 cpu
      ≡ some (tt, record cpu { data_table = table }))
    × (length table ≡ 3)
    × (get_elem? table 2 ≡ some (alu Alu.times 5 2))
array_each-scalar_example = array_each-scalar ArrayOp.mul 2 tt 2 1 2 cpu (omega arith) (omega arith)

-- the operands of `rand 0 1 2`, a number from 3 up to below 5
abbrev rand_operands : List ℕ
rand_operands = 0 ∷ 1 ∷ 2 ∷ []

rand_range_example :
    (w seed : ℕ) × (rand no_pixels rand_operands cpu
      ≡ some (dispatch, record cpu { pc = 3; data_table = w ∷ 3 ∷ 5 ∷ []; rng_seed = seed }))
    × (3 ≤ w)
    × ((w < 5) ⊎ ((w ≡ 3) × (◌≡◌ {A = ℕ} 3 5)))
rand_range_example =
    rand_range no_pixels rand_operands cpu 0 1 2 refl refl refl (omega arith) (omega arith)
      (omega arith) (omega arith) (omega arith) (omega arith)
