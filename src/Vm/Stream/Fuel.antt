-- ===== src/Vm/Stream/Fuel.antt =====
-- The fuel of a run only bounds it: any two amounts that are enough give the same run.
use Prim.Native.Nat.{zero, suc}
use chromatron.Base.{
  ℕ, ◌≤◌, ◌≡◌, ◌≢◌, refl, none, some, Option, List, ltb, arith, Bool-cases, inl, inr,
}
use chromatron.Vm.Types.{max_cycles, Env, is_error}
use chromatron.Vm.Cpu.{Cpu, Flow, dispatch, return, call}
use chromatron.Vm.Stream.{
  Run, finished, faulted, out_of_fuel, after_call, follow, settle, tick, round, run_stream,
}

module _ {G : Type 0} where
  -- `more` gives what `less` gives, where that is not a lack of fuel.
  abbrev Extends : (Cpu G → Run G) → (Cpu G → Run G) → Type 0
  Extends less more = (c : Cpu G) → less c ≢ out_of_fuel → more c ≡ less c

  after_call-Extends :
      (less more : Cpu G → Run G) (r : Run G)
      → Extends less more
      → after_call less r ≢ out_of_fuel
      → after_call more r ≡ after_call less r
  unfolding after_call
  after_call-Extends less more (finished s c) h e = elim (Bool-cases (is_error s)) [
    | inl bad ↦ rw (bad, after_call) refl
    | inr good ↦ rw (good, after_call) (h c (rw (good, after_call) at e))
  ]
  after_call-Extends less more faulted h e = refl
  after_call-Extends less more out_of_fuel h e = refl

  after_call-ne : (k : Cpu G → Run G) (r : Run G) → after_call k r ≢ out_of_fuel → r ≢ out_of_fuel
  unfolding after_call
  after_call-ne k (finished s c) h e = cc
  after_call-ne k faulted h e = cc
  after_call-ne k out_of_fuel h e = h refl

  follow-Extends :
      (less more : Cpu G → Run G) (flow : Flow) (c : Cpu G)
      → Extends less more
      → follow less flow c ≢ out_of_fuel
      → follow more flow c ≡ follow less flow c
  unfolding follow
  follow-Extends less more dispatch c h e = h c e
  follow-Extends less more (return s) c h e = refl
  follow-Extends less more (call addr) c h e =
      rw (h (record c { pc = addr }) (after_call-ne _ _ e))
        (after_call-Extends _ _ _ (λ c' ne. h (record c' { pc = c.pc }) ne) e)

  settle-Extends :
      (less more : Cpu G → Run G) (r : Option (Flow × Cpu G))
      → Extends less more
      → settle less r ≢ out_of_fuel
      → settle more r ≡ settle less r
  unfolding settle
  settle-Extends less more none h e = refl
  settle-Extends less more (some (flow, c)) h e = follow-Extends less more flow c h e

module _ {G : Type 0} (env : Env G) (stream : List ℕ) where
  round-Extends :
      (less more : Cpu G → Run G) (r : Option (ℕ × Cpu G))
      → Extends less more
      → round env stream less r ≢ out_of_fuel
      → round env stream more r ≡ round env stream less r
  unfolding round
  round-Extends less more none h e = refl
  round-Extends less more (some (opcode, c)) h e = settle-Extends less more _ h e

  -- More fuel than a run needs does not change it.
  pub run_stream-le :
      (f g : ℕ) (c : Cpu G)
      → f ≤ g
      → run_stream env stream f c ≢ out_of_fuel
      → run_stream env stream g c ≡ run_stream env stream f c
  unfolding run_stream
  run_stream-le zero g c le e = absurd (e refl)
  run_stream-le (suc f) zero c le e = absurd (omega arith)
  run_stream-le (suc f) (suc g) c le e = elim (Bool-cases (ltb max_cycles (tick c).cycles)) [
    | inl over ↦ rw (over, run_stream) refl
    | inr within ↦
        rw (within, run_stream)
          (round-Extends (run_stream env stream f) (run_stream env stream g) _
            (λ c' ne. run_stream-le f g c' (omega arith) ne) (rw (within, run_stream) at e))
  ]
