-- ===== src/Vm/Eval.antt =====
-- vm_i8_eval: a short run of code over a caller's data table, with the registers of random.c.
pub mod Evaluated
use chromatron.Base.{ℕ, Option, none, some, List, get_elem?}
use chromatron.Random.{Lfsr, seed, get_seed}
use chromatron.Vm.Types.{Env, Status}
use chromatron.Vm.Stream.{Run, finished, faulted, out_of_fuel, run_stream}
use chromatron.Vm.Image.{cycle_fuel}

-- What an evaluation leaves: the status, the data, `*result`, the registers of random.c and the state
-- of the graphics and of the database.
pub data Evaluation (G : Type 0) : Type 0 where
  evaluated : Status → List ℕ → ℕ → Lfsr → G → Evaluation G
  failed : Evaluation G
  unended : Evaluation G

module _ {G : Type 0} where
  -- `*result = data[RETURN_VAL_ADDR]`, after `rnd_v_seed( rng_seed )`
  unfoldable pub conclude : Run G → Evaluation G
  conclude (finished s c) = elim (get_elem? c.data_table 0) [
    | none ↦ failed
    | some result ↦ evaluated s c.data_table result (seed c.rng_seed) c.outside
  ]
  conclude faulted = failed
  conclude out_of_fuel = unended

  unfoldable pub eval : Env G → List ℕ → List ℕ → Lfsr → G → Evaluation G
  eval env stream table registers g = conclude (
      run_stream env stream cycle_fuel (record {
        pc = 0;
        data_table = table;
        rng_seed = get_seed registers;
        cycles = 0;
        outside = g;
      }))
