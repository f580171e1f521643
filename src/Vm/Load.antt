-- ===== src/Vm/Load.antt =====
-- vm_i8_load_program: the header of a compiled script becomes a `vm_state_t`.
pub mod Accepts
use chromatron.Base.{
  ℕ, ◌+◌, ◌/◌, ◌%◌, ◌^◌, Bool, not, ◌&&◌, Option, none, some, List, ◌==◌, if◌then◌else◌, take,
}
use chromatron.Base.Bytes.{◌>>=◌, read16, read32}
use chromatron.Crc.{u16_block}
use chromatron.Vm.Types.{Status}
use chromatron.Vm.Image.{VmState}

abbrev pub file_magic : ℕ
file_magic = 0x20205846

abbrev pub program_magic : ℕ
program_magic = 0x474f5250

abbrev pub code_magic : ℕ
code_magic = 0x45444f43

abbrev pub data_magic : ℕ
data_magic = 0x41544144

abbrev pub isa_version : ℕ
isa_version = 8

-- sizeof(vm_program_header_t), sizeof(vm_publish_t), sizeof(gfx_pixel_array_t)
abbrev pub header_size : ℕ
header_size = 28

abbrev pub publish_size : ℕ
publish_size = 8

abbrev pub pixel_array_size : ℕ
pixel_array_size = 12

-- `vm_program_header_t`, without its padding
pub record Header : Type 0 where
  pub file : ℕ
  pub prog : ℕ
  pub isa : ℕ
  pub code_len : ℕ
  pub data_len : ℕ
  pub read_keys_len : ℕ
  pub write_keys_len : ℕ
  pub publish_len : ℕ
  pub pix_obj_len : ℕ
  pub init_start : ℕ
  pub loop_start : ℕ

-- `(vm_program_header_t *)stream`; `none` for a stream that is shorter than the header
unfoldable pub read_header : List ℕ → Option Header
read_header bs = do
  file ← read32 bs 0
  prog ← read32 bs 4
  isa ← read16 bs 8
  code_len ← read16 bs 10
  data_len ← read16 bs 12
  read_keys_len ← read16 bs 14
  write_keys_len ← read16 bs 16
  publish_len ← read16 bs 18
  pix_obj_len ← read16 bs 20
  init_start ← read16 bs 24
  loop_start ← read16 bs 26
  some (record {
    file = file;
    prog = prog;
    isa = isa;
    code_len = code_len;
    data_len = data_len;
    read_keys_len = read_keys_len;
    write_keys_len = write_keys_len;
    publish_len = publish_len;
    pix_obj_len = pix_obj_len;
    init_start = init_start;
    loop_start = loop_start;
  })

-- `memset( state, 0, sizeof(vm_state_t) )`
abbrev pub cleared : VmState
cleared = record {
  code_start = 0;
  data_start = 0;
  prog_size = 0;
  data_len = 0;
  data_count = 0;
  init_start = 0;
  loop_start = 0;
  frame_number = 0;
  rng_seed = 0;
  max_cycles = 0;
  read_keys_count = 0;
  read_keys_start = 0;
  write_keys_count = 0;
  write_keys_start = 0;
  publish_count = 0;
  publish_start = 0;
  pix_obj_count = 0;
  pix_obj_start = 0;
}

abbrev add16 : ℕ → ℕ → ℕ
add16 a b = (a + b) % 2 ^ 16

-- the status and what the state holds when it is returned
abbrev pub Loaded : Type 0
Loaded = Status × VmState

-- The lengths of the sections, and the data section.
unfoldable pub load_data : List ℕ → Header → VmState → Option Loaded
load_data bs h st = do
  let code_start : ℕ = add16 st.code_start 4
  let data_start : ℕ = add16 code_start h.code_len
  let st' : VmState = record st {
    code_start = code_start;
    data_start = data_start;
    data_len = h.data_len;
    data_count = h.data_len / 4;
  }
  magic ← read32 bs data_start
  some (
      if magic == data_magic
      then (
        Status.ok,
        record st' { data_start = add16 data_start 4; rng_seed = 1; frame_number = 0 },
      )
      else (Status.bad_data_magic, st'))

unfoldable pub load_code : List ℕ → Header → VmState → ℕ → Option Loaded
load_code bs h st obj_start = do
  let st' : VmState = record st { code_start = obj_start }
  magic ← read32 bs obj_start
  if magic == code_magic then load_data bs h st' else some (Status.bad_code_magic, st')

-- The table of pixel arrays, and the return for VM_LOAD_FLAGS_CHECK_HEADER. Each count is cut to its
-- `uint8_t`.
unfoldable pub load_pixels : Bool → List ℕ → Header → VmState → ℕ → Option Loaded
load_pixels only_header bs h st obj_start =
    let st' : VmState = record st {
      pix_obj_count = h.pix_obj_len / pixel_array_size % 2 ^ 8;
      pix_obj_start = obj_start;
    } in
    if not (obj_start % 4 == 0)
    then some (Status.pixel_misalign, st')
    else if only_header
    then some (Status.ok, st')
    else load_code bs h st' (add16 obj_start h.pix_obj_len)

unfoldable pub load_publish : Bool → List ℕ → Header → VmState → ℕ → Option Loaded
load_publish only_header bs h st obj_start =
    let st' : VmState = record st {
      publish_count = h.publish_len / publish_size % 2 ^ 8;
      publish_start = obj_start;
    } in
    if not (obj_start % 4 == 0)
    then some (Status.publish_vars_misalign, st')
    else load_pixels only_header bs h st' (add16 obj_start h.publish_len)

unfoldable pub load_write_keys : Bool → List ℕ → Header → VmState → ℕ → Option Loaded
load_write_keys only_header bs h st obj_start =
    let st' : VmState = record st {
      write_keys_count = h.write_keys_len / 4 % 2 ^ 8;
      write_keys_start = obj_start;
    } in
    if not (obj_start % 4 == 0)
    then some (Status.write_keys_misalign, st')
    else load_publish only_header bs h st' (add16 obj_start h.write_keys_len)

unfoldable pub load_read_keys : Bool → List ℕ → Header → Option Loaded
load_read_keys only_header bs h =
    let st : VmState = record cleared {
      init_start = h.init_start;
      loop_start = h.loop_start;
      read_keys_count = h.read_keys_len / 4 % 2 ^ 8;
      read_keys_start = header_size;
    } in
    if not (header_size % 4 == 0)
    then some (Status.read_keys_misalign, st)
    else load_write_keys only_header bs h st (add16 header_size h.read_keys_len)

unfoldable pub load_header : Bool → List ℕ → Header → Option Loaded
load_header only_header bs h =
    if not (h.file == file_magic)
    then some (Status.bad_file_magic, cleared)
    else if not (h.prog == program_magic)
    then some (Status.bad_prog_magic, cleared)
    else if not (h.isa == isa_version)
    then some (Status.invalid_isa, cleared)
    else if not (header_size % 4 == 0)
    then some (Status.header_misalign, cleared)
    else load_read_keys only_header bs h

-- With VM_LOAD_FLAGS_CHECK_HEADER, bit 0 of the flags, only the header is checked.
unfoldable pub load_program : ℕ → List ℕ → ℕ → Option Loaded
load_program flags bs len =
    let only_header : Bool = flags % 2 == 1 in
    if not only_header && not (u16_block (take len bs) == 0)
    then some (Status.bad_crc, cleared)
    else (do h ← read_header bs; load_header only_header bs h)
