-- ===== src/Vm/Stream.antt =====
-- `_vm_i8_run_stream`: the loop over `dispatch`, on fuel. Each round counts one cycle of the 16-bit
-- counter that all nested calls share, and stops above VM_MAX_CYCLES.
pub mod Fuel
pub mod Ends
use Prim.Native.Nat.{zero, suc}
use chromatron.Base.{
  ℕ, ◌+◌, ◌%◌, ◌^◌, true, false, none, some, Option, List, ltb, get_elem?, if◌then◌else◌,
}
use chromatron.Vm.Types.{max_cycles, Env, Status, is_error}
use chromatron.Vm.Cpu.{Cpu, Flow, dispatch, return, call, fetch}
use chromatron.Vm.Dispatch.{decode, exec}

pub data Run (G : Type 0) : Type 0 where
  finished : Status → Cpu G → Run G
  faulted : Run G
  out_of_fuel : Run G

module _ {G : Type 0} where
  -- What `opcode_call` does with the status of the call: an error is passed on, any other status
  -- goes back to `dispatch` behind the call.
  unfoldable pub after_call : (Cpu G → Run G) → Run G → Run G
  after_call continue (finished s c) = elim (is_error s) [
    | true ↦ finished s c
    | false ↦ continue c
  ]
  after_call continue faulted = faulted
  after_call continue out_of_fuel = out_of_fuel

  -- What follows an instruction, where `again` runs the loop.
  unfoldable pub follow : (Cpu G → Run G) → Flow → Cpu G → Run G
  follow again dispatch c = again c
  follow again (return s) c = finished s c
  follow again (call addr) c =
      after_call (λ c'. again (record c' { pc = c.pc })) (again (record c { pc = addr }))

  unfoldable pub settle : (Cpu G → Run G) → Option (Flow × Cpu G) → Run G
  settle again none = faulted
  settle again (some (flow, c)) = follow again flow c

  -- `cycles++`, on the 16-bit counter
  abbrev pub tick : Cpu G → Cpu G
  tick c = record c { cycles = (c.cycles + 1) % 2 ^ 16 }

module _ {G : Type 0} (env : Env G) (stream : List ℕ) where
  -- the jump through the opcode table
  unfoldable pub round : (Cpu G → Run G) → Option (ℕ × Cpu G) → Run G
  round again none = faulted
  round again (some (opcode, c)) = settle again (exec env stream (decode opcode) c)

  unfoldable pub run_stream : ℕ → Cpu G → Run G
  run_stream zero c = out_of_fuel
  run_stream (suc f) c = elim (ltb max_cycles (tick c).cycles) [
    | true ↦ finished Status.err_max_cycles (tick c)
    | false ↦ round (run_stream f) (fetch stream (tick c))
  ]
