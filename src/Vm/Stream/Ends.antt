-- ===== src/Vm/Stream/Ends.antt =====
-- Every run of the interpreter ends: by a status or by a fault.
use Prim.Native.Nat.{zero, suc}
use chromatron.Base.{
  ℕ, ◌+◌, ◌≤◌, ◌<◌, ◌≡◌, ◌⊎◌, inl, inr, refl, none, some, Option, List, ltb, arith, length, All,
  Bool-cases,
}
use chromatron.Word.{IsWord}
use chromatron.Vm.Types.{max_cycles, Env, Status, is_error}
use chromatron.Vm.Cpu.{Cpu, Flow, dispatch, return, call}
use chromatron.Vm.Cpu.Keeps.{IsShaped, Ensures, Any, Keeps-fetch}
use chromatron.Vm.Dispatch.{decode}
use chromatron.Vm.Dispatch.Keeps.{exec-Keeps}
use chromatron.Vm.Stream.{
  Run, finished, faulted, out_of_fuel, after_call, follow, settle, tick, round, run_stream,
}

-- The cycle counter stops at the limit, or one above it with the status that says so.
abbrev pub InBudget : {G : Type 0} → Status → Cpu G → Type 0
InBudget s c = (c.cycles ≤ max_cycles) ⊎ ((s ≡ Status.err_max_cycles) × (c.cycles ≡ max_cycles + 1))

-- A run that started with `n` data cells and `k` cycles has ended. A state that it leaves has as many
-- cells, all in range, no fewer cycles, and no more than the budget.
abbrev pub Ends : {G : Type 0} → ℕ → ℕ → Run G → Type 0
Ends n k (finished s c) = IsShaped n c.cycles c × (k ≤ c.cycles) × InBudget s c
Ends n k faulted = Unit
Ends n k out_of_fuel = ⊥

module _ {G : Type 0} (n : ℕ) where
  IsShaped-self : {k : ℕ} {c : Cpu G} → IsShaped n k c → IsShaped n c.cycles c
  IsShaped-self s = record { size = s.size; words = s.words; counted = refl }

  with_pc : {k : ℕ} (a : ℕ) {c : Cpu G} → IsShaped n k c → IsShaped n k (record c { pc = a })
  with_pc a s = record { size = s.size; words = s.words; counted = s.counted }

  Ends-weaken : {j k : ℕ} (r : Run G) → j ≤ k → Ends n k r → Ends n j r
  Ends-weaken (finished s c) h e = (e.0, omega arith, e.2)
  Ends-weaken faulted h e = tt
  Ends-weaken out_of_fuel h e = e

  -- `again` ends from every state within its budget.
  abbrev Again : (Cpu G → Run G) → ℕ → Type 0
  Again again least =
      (c : Cpu G) (k : ℕ) → IsShaped n k c → least ≤ k → k ≤ max_cycles → Ends n k (again c)

  after_call-Ends :
      (continue : Cpu G → Run G) (r : Run G) (k : ℕ)
      → ((c : Cpu G)
          → IsShaped n c.cycles c
          → k ≤ c.cycles
          → c.cycles ≤ max_cycles
          → Ends n c.cycles (continue c))
      → Ends n k r
      → Ends n k (after_call continue r)
  unfolding after_call is_error
  after_call-Ends continue (finished s c) k again e = elim e.2 [
    | inl low ↦ elim (Bool-cases (is_error s)) [
      | inl bad ↦ rw (bad, Ends) e
      | inr good ↦ rw (good, Ends) (Ends-weaken (continue c) e.1 (again c e.0 e.1 low))
    ]
    | inr over ↦ rw (over.0, Ends) e
  ]
  after_call-Ends continue faulted k again e = tt
  after_call-Ends continue out_of_fuel k again e = e

  follow-Ends :
      (again : Cpu G → Run G) (flow : Flow) (c : Cpu G) (k : ℕ)
      → IsShaped n k c
      → k ≤ max_cycles
      → Again again k
      → Ends n k (follow again flow c)
  unfolding follow
  follow-Ends again dispatch c k s low ih = ih c k s (omega arith) low
  follow-Ends again (return status) c k s low ih =
      (IsShaped-self s, omega (arith, s.counted), inl (omega (arith, s.counted)))
  follow-Ends again (call addr) c k s low ih =
      after_call-Ends _ _ k (λ c' s' least low'. ih _ c'.cycles (with_pc c.pc s') least low')
        (ih _ k (with_pc addr s) (omega arith) low)

module _ {G : Type 0} (env : Env G) (stream : List ℕ) (n : ℕ) where
  tick-IsShaped :
      (k : ℕ) (c : Cpu G) → IsShaped n k c → k ≤ max_cycles → IsShaped n (k + 1) (tick c)
  tick-IsShaped k c s low = record {
    size = s.size;
    words = s.words;
    counted = omega (arith, s.counted);
  }

  settle-Ends :
      (again : Cpu G → Run G) (k : ℕ)
      → k ≤ max_cycles
      → Again n again k
      → (r : Option (Flow × Cpu G)) → Ensures n k Any r
      → Ends n k (settle again r)
  unfolding settle
  settle-Ends again k low ih none e = tt
  settle-Ends again k low ih (some (flow, c)) e = follow-Ends n again flow c k e.0 low ih

  round-Ends :
      (again : Cpu G → Run G) (k : ℕ)
      → k ≤ max_cycles
      → Again n again k
      → (r : Option (ℕ × Cpu G)) → Ensures n k Any r
      → Ends n k (round env stream again r)
  unfolding round
  round-Ends again k low ih none e = tt
  round-Ends again k low ih (some (opcode, c)) e =
      settle-Ends again k low ih _ ((exec-Keeps env stream (decode opcode)).at c e.0)

  run-Ends :
      (fuel k : ℕ) (c : Cpu G)
      → IsShaped n k c
      → k ≤ max_cycles
      → max_cycles < k + fuel
      → Ends n k (run_stream env stream fuel c)
  unfolding run_stream
  run-Ends zero k c s low enough = absurd (omega arith)
  run-Ends (suc fuel) k c s low enough =
      let t = tick-IsShaped k c s low in
      elim (Bool-cases (ltb max_cycles (tick c).cycles)) [
        | inl over ↦
            rw (over, Ends)
              (IsShaped-self n t, omega (arith, t.counted), inr (refl, ground (arith, t.counted)))
        | inr within ↦
            rw (within, Ends)
              (Ends-weaken n _ (omega arith) (
                round-Ends (run_stream env stream fuel) (k + 1) (ground (arith, t.counted))
                  (λ c' k' s' least low'. run-Ends fuel k' c' s' low' (omega arith)) _
                  ((Keeps-fetch stream).at (tick c) t)))
      ]

  -- With fuel for the cycles that are left, a run over words ends: by a status, with as many cells as
  -- before, all words, and a counter that has not gone down and is at most one above VM_MAX_CYCLES, or by
  -- a fault. It never runs out of fuel.
  pub run_stream-Ends :
      (fuel : ℕ) (c : Cpu G)
      → length c.data_table ≡ n
      → All IsWord c.data_table
      → c.cycles ≤ max_cycles
      → max_cycles < c.cycles + fuel
      → Ends n c.cycles (run_stream env stream fuel c)
  run_stream-Ends fuel c size words low enough =
      run-Ends fuel c.cycles c (record { size = size; words = words; counted = refl }) low enough
