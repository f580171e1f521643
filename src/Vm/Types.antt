-- ===== src/Vm/Types.antt =====
-- The constants and types of vm_core.h, and what the interpreter asks of its surroundings.
use chromatron.Base.{ℕ, Bool, true, false, Option, List}
use chromatron.Base.Int.{ℤ, pos, negsuc}

-- VM_MAX_CYCLES
abbrev pub max_cycles : ℕ
max_cycles = 32768

-- VM_STATUS_*
pub data Status : Type 0 where
  halt ok : Status
  bad_crc bad_file_magic bad_prog_magic invalid_isa bad_code_magic bad_data_magic : Status
  err_max_cycles : Status
  header_misalign read_keys_misalign write_keys_misalign publish_vars_misalign : Status
  pixel_misalign : Status
  assertion trap : Status

-- The number of a status, an `int8_t`.
unfoldable pub code : Status → ℤ
code halt = pos 1
code ok = pos 0
code bad_crc = negsuc 0
code bad_file_magic = negsuc 1
code bad_prog_magic = negsuc 2
code invalid_isa = negsuc 3
code bad_code_magic = negsuc 4
code bad_data_magic = negsuc 5
code err_max_cycles = negsuc 29
code header_misalign = negsuc 42
code read_keys_misalign = negsuc 43
code write_keys_misalign = negsuc 44
code publish_vars_misalign = negsuc 45
code pixel_misalign = negsuc 46
code assertion = negsuc 98
code trap = negsuc 99

-- `status < 0`
unfoldable pub is_error : Status → Bool
unfolding code
is_error s = elim (code s) [ pos n ↦ false | negsuc n ↦ true ]

-- The pixel attributes that an instruction reads or writes at one position.
pub data Attr : Type 0 where
  hue sat val hs_fade v_fade : Attr

-- The array instructions.
pub data ArrayOp : Type 0 where
  add sub mul div mod_op mov : ArrayOp

-- What the interpreter calls in gfx_lib.c and kvdb.c, over their state `G`. Positions arrive as
-- `uint16_t`, all else as bytes or bit patterns of an `int32_t`.
pub record Env (G : Type 0) : Type 0 where
  -- gfx_v_set_hue and its like: attribute, value, x, y, object
  pub set_attr : Attr → ℕ → ℕ → ℕ → ℕ → G → G
  -- gfx_u16_get_hue and its like: attribute, x, y, object
  pub get_attr : Attr → ℕ → ℕ → ℕ → G → ℕ
  -- gfx_u16_get_is_fading
  pub is_fading : ℕ → ℕ → ℕ → G → ℕ
  -- gfx_v_array_add and its like: operation, object, attribute, operand
  pub array_op : ArrayOp → ℕ → ℕ → ℕ → G → G
  -- gfx_i32_lib_call: hash and parameters
  pub lib_call : ℕ → List ℕ → G → ℕ × G
  -- gfx_i32_get_obj_attr: object, attribute, address
  pub get_obj_attr : ℕ → ℕ → ℕ → G → ℕ
  -- kvdb_i8_get: the value that it writes, if it writes one
  pub kv_get : ℕ → G → Option ℕ
  -- kvdb_i8_set and kvdb_i8_publish
  pub kv_set : ℕ → ℕ → G → G
  pub kv_publish : ℕ → G → G
