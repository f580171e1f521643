-- ===== src/Vm/Eval/Evaluated.antt =====
-- Every evaluation ends, whatever the code.
use chromatron.Base.{
  ℕ, ◌≡◌, ◌≢◌, refl, some, List, length, All, get_elem?, arith, Option-cases, inl, inr,
}
use chromatron.Word.{IsWord}
use chromatron.Random.{Lfsr, seed}
use chromatron.Vm.Types.{Env}
use chromatron.Vm.Stream.{Run, finished, faulted, out_of_fuel}
use chromatron.Vm.Stream.Ends.{Ends, run_stream-Ends}
use chromatron.Vm.Eval.{Evaluation, evaluated, failed, unended, conclude, eval}

-- A result that is the first of `n` cells, all words, and registers of which none is stuck at 0.
pub record IsEvaluated (n : ℕ) (table : List ℕ) (result : ℕ) (registers : Lfsr) : Type 0 where
  pub size : length table ≡ n
  pub words : All IsWord table
  pub first : get_elem? table 0 ≡ some result
  pub live31 : registers.lfsr31 ≢ 0
  pub live32 : registers.lfsr32 ≢ 0

abbrev pub Evaluated : {G : Type 0} → ℕ → Evaluation G → Type 0
Evaluated n (evaluated s table result registers g) = IsEvaluated n table result registers
Evaluated n failed = Unit
Evaluated n unended = ⊥

seed-live : (s : ℕ) → ((seed s).lfsr31 ≢ 0) × ((seed s).lfsr32 ≢ 0)
unfolding seed
seed-live s = ground arith

module _ {G : Type 0} where
  conclude-Evaluated : (n : ℕ) (r : Run G) → Ends n 0 r → Evaluated n (conclude r)
  unfolding conclude
  conclude-Evaluated n (finished s c) e = elim (Option-cases (get_elem? c.data_table 0)) [
    | inl missing ↦ rw (conclude, missing) tt
    | inr (result, first) ↦
        rw (conclude, first)
          (record {
            size = e.0.size;
            words = e.0.words;
            first = first;
            live31 = (seed-live c.rng_seed).0;
            live32 = (seed-live c.rng_seed).1;
          })
  ]
  conclude-Evaluated n faulted e = tt
  conclude-Evaluated n out_of_fuel e = e

  -- vm_i8_eval over words never runs on without end. It faults, or it leaves as many cells, all words, the
  -- first of which is the result, and registers of which none is stuck at 0.
  pub eval-Evaluated :
      (env : Env G) (stream table : List ℕ) (registers : Lfsr) (g : G)
      → All IsWord table
      → Evaluated (length table) (eval env stream table registers g)
  unfolding eval
  eval-Evaluated env stream table registers g words =
      conclude-Evaluated (length table) _
        (run_stream-Ends env stream (length table) _ _ refl words (omega arith) (omega arith))
