-- ===== src/Lib.antt =====
-- Verification of the Chromatron firmware: the interpreter of FX scripts, the checksum and the random
-- numbers that it depends on, the graphics library that it drives, the memory manager, the database,
-- the calendar, the utilities and the lists of its operating system, and the C arithmetic of all of
-- them.
--
-- A pixel program is compiled on a computer to a stream of bytes: a header, tables of database keys
-- and pixel arrays, a code section and a data section, and a checksum. The firmware loads the stream
-- (`vm_i8_load_program`), runs its `init` function once and its `loop` function for every frame
-- (`vm_i8_run_init`, `vm_i8_run_loop`), and reads and writes single cells of its data section
-- in between (`vm_i32_get_data`, `vm_v_set_data`).
--
-- Base       lists, options, numbers and bytes; the little-endian access to a stream
-- Word       `int32_t` as bit patterns below 2 ^ 32, with C's wrapping sums and truncating division
-- Crc        src/chromatron_wifi/src/crc.c, and its copy src/hal/sim/crc.c
-- Random     src/sapphireos/random.c
-- Util       src/sapphireos/util.c: sequence numbers, interpolation, sorting and averages
-- Chain      src/sapphireos/list.c: doubly linked lists over memory handles, and the sequences that they
--            stand for
-- Memory     src/sapphireos/memory.c: blocks behind handles, and the collector that moves them together
--   Blocks     the blocks by the handles that own them
--   Sound      the invariant that ties the handle table and the counters to the blocks
--   Steps      any number of calls, from an empty heap
-- Kvdb       src/sapphireos/kvdb.c: the sorted array of entries with its search and cache
--   View       the map from hashes to entries that the array stands for
-- Datetime   src/sapphireos/datetime.c: the conversion from seconds to a date, and the increment
--   Gregorian  the rules of the calendar, and what a date is in seconds by them
-- Trig       src/lib_chromatron/trig.c: sine, cosine and triangle waves
-- Hash       src/sapphireos/hash.c: the FNV-1a hash
-- Gfx        src/lib_chromatron/gfx_lib.c and gfx_lib.h
--   Types      the pixels and the other variables of the module
--   Fader      a level, its target and its step: one frame, the steps and the end of a fade
--   Frames     `gfx_v_process_faders`
--   Positions  `calc_index`, and the layout of the matrix that it gives
--   Setters    the setters and getters of one pixel
--   Arrays     the operations on all pixels of an array, and `gfx_u16_get_is_fading`
--   Params     the parameters with their checks, the master dimmer, and the start
--   Colors     `gfx_v_hsv_to_rgb`, `gfx_v_hsv_to_rgbw`, the dimmer's curve and `gfx_v_sync_array`
--   Noise      `gfx_u16_noise` and `gfx_i32_lib_call`
--   Proper     the invariant of the state, and Steps any number of calls that keep it
-- Vm         src/lib_chromatron/vm_core.c and vm_core.h
--   Types      the constants and the record `Env` of what the interpreter calls
--   Cpu        the state of a run, and the fetches, loads and stores of an instruction
--   Opcodes    the operations on values: alu, array loops, clamping
--   Labels     the labels from `opcode_mov` to `opcode_call`
--   Calls      the labels from `opcode_lta` to `opcode_db_store`
--   Dispatch   `opcode_table`
--   Stream     `_vm_i8_run_stream`, the loop over `dispatch`
--   Image      the entry points that run a program, and the registers
--   Load       `vm_i8_load_program`
--   Eval       `vm_i8_eval`
-- A child module of one of these holds what is proved about it, or, where it is called Types, its data;
-- the modules called Tests hold runs of the code and the theorems at concrete inputs.
--
-- How the code is modelled. An instruction is a function of the state of the run that gives `none`
-- where the C code has undefined behaviour: an access outside the code or the data section, or a
-- division by zero. A fetch from the data section is a fault too, although C defines it as a read of
-- the same stream, so that nothing is said of a program that runs its data. The quotient of -2 ^ 31
-- and -1, which C leaves undefined, is the wrapped one here. The model follows the ESP8266 build,
-- where VM_ENABLE_GFX and VM_ENABLE_KVDB are set. A `uint8_t *stream` is a list of bytes, which the
-- code never shares with anything else while it runs; the data section is read from it before a run
-- and written back behind it, where the code works on the stream itself through a pointer. What the
-- interpreter calls in gfx_lib.c and kvdb.c is the record `Env` over a state of their own, an argument
-- of every definition that calls them. The static `cycles` is a field of the state of a run, which
-- nested runs share: all entry points set it to 0 but `vm_i8_run`, which has it as an argument.
--
-- Fuel. `run_stream` recurs on fuel for the loop over `dispatch` and for nested calls alike. Every
-- round counts a cycle and VM_MAX_CYCLES ends the run, so 32769 rounds are enough. The sorts recur on
-- fuel for their sweeps, of which each but the last removes a pair in the wrong order, so the square of
-- the length and one more are enough; `Kvdb.probe` on fuel for its halvings, which the length and one
-- more bounds; `Datetime.year_loop` for the years, of which 32 bits of seconds hold 137; and
-- `Chain.count` for the nodes of a list. C's own stack, which deeply nested calls could exhaust, is not
-- modelled.
--
-- The heap. A block is a record with its data, and the heap is the list of its blocks up to
-- `free_space_ptr`. A handle's pointer is an offset from `heap`, which leads to the block that starts
-- there. A failed assert, an access through a pointer that leads to no block, a memcpy of bytes that
-- overlap, which the collector does where a clean block is larger than the dirty space in front of it,
-- and an allocation whose int8_t handle would pass 127 are `none`. A sound heap has fewer than 128
-- handles, as the AVR build has 64, and fewer than 2 ^ 15 bytes. What a client writes through the
-- pointer of mem2_vp_get_ptr is `write`, which stands for no function of memory.c. The blocks that
-- alloc takes hold what was in the memory before, which is an argument. The database does not call the
-- heap in the model: what its allocation and reallocation give are arguments of `Kvdb.init` and
-- `Kvdb.add`. Both stand beside `Env`, which has the interpreter's calls as arguments.
--
-- The pixels. gfx_lib.c has one array for each attribute of the pixels; in the model one list holds a
-- record for each of the 320 pixels, and a loop over the first `pix_count` of them that would run behind
-- the arrays is `none`, as is a division by 0. An `int16_t` step is its pattern below 2 ^ 16. `pix_arrays`
-- points into the data of the running program: here it is a list, and a null pointer is `none`. What
-- `compute_dimmer_lookup` makes with floating-point numbers, and the table of smootherstep.csv, are
-- arguments. The numbers of frames that the theorems on fades name are the bounds of their loops.
--
-- Not modelled: of gfx_lib.c `sync_db` and the getters of single variables; graphics.c and pixel.c;
-- of list.c the creation, release and flattening of nodes and list_ln_remove_tail; of
-- util.c the functions `f_abs` and `abs32` and the average of signed numbers; of memory.c the stack
-- usage and what only reports the state; of kvdb.c the file of names; of datetime.c the text of ISO 8601
-- and the clock; the rest of the operating system (threads, files, network), the boot loaders and the
-- hardware drivers, which are mostly input and output; and the tools in Python, which are another
-- program.
pub mod Base
pub mod Word
pub mod Random
pub mod Crc
pub mod Util
pub mod Chain
pub mod Memory
pub mod Kvdb
pub mod Datetime
pub mod Vm
mod Tests
pub mod Hash
pub mod Trig
pub mod Gfx
