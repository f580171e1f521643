-- ===== src/Vm/Cpu/Steps.antt =====
-- Running an action that does not fault.
use chromatron.Base.{
  ◌∙◌, ℕ, ◌+◌, ◌<◌, ◌≡◌, refl, some, List, get_elem?, get_or, get_elem?-eq-get_or, set, length,
  lt→ltb,
}
use chromatron.Vm.Cpu.{Cpu, Exec, ◌>>=◌, load, store, fetch, operand}

-- The rest of a block runs from the state that its first action leaves.
pub bind-some :
    {G A B : Type 0} (m : Exec G A) (f : A → Exec G B) {c c' : Cpu G} {a : A}
    → m c ≡ some (a, c')
    → (m >>= f) c ≡ f a c'
unfolding ◌>>=◌
bind-some m f e = rw (e, ◌>>=◌) refl

module _ {G : Type 0} where
  pub load-some :
      (a : ℕ) (c : Cpu G) → a < length c.data_table → load a c ≡ some (get_or c.data_table a 0, c)
  unfolding load
  load-some a c h = rw (get_elem?-eq-get_or c.data_table a 0 h, load) refl

  pub store-some :
      (a v : ℕ) (c : Cpu G)
      → a < length c.data_table
      → store a v c ≡ some (tt, record c { data_table = set c.data_table a v })
  unfolding store
  store-some a v c h = rw (lt→ltb a _ h) refl

  pub fetch-some :
      (code : List ℕ) (c : Cpu G) {b : ℕ}
      → get_elem? code c.pc ≡ some b
      → fetch code c ≡ some (b, record c { pc = c.pc + 1 })
  unfolding fetch
  fetch-some code c e = rw (e, fetch) refl

  pub operand-some :
      (code : List ℕ) (c : Cpu G) {a : ℕ}
      → get_elem? code c.pc ≡ some a
      → a < length c.data_table
      → operand code c ≡ some (get_or c.data_table a 0, record c { pc = c.pc + 1 })
  unfolding operand
  operand-some code c {a} e h =
      bind-some _ _ (fetch-some code c e) ∙ load-some a (record c { pc = c.pc + 1 }) h
