-- ===== src/Vm/Cpu.antt =====
-- The state of one run of the interpreter, and the accesses that its instructions are made of.
-- `none` is a fault: a read outside the code section, an access outside the data section, or a
-- division by zero. The C code checks none of these, and what it does there is undefined.
pub mod Keeps
pub mod Steps
use chromatron.Base.{
  ℕ, ◌+◌, ◌*◌, ◌≡◌, Bool, true, false, Option, none, some, List, ltb, if◌then◌else◌, get_elem?, set,
  length,
}
use chromatron.Vm.Types.{Status}

-- `pc`, `data`, `*rng_seed` and `cycles`, and the state of the graphics and of the database.
pub record Cpu (G : Type 0) : Type 0 where
  pub pc : ℕ
  pub data_table : List ℕ
  pub rng_seed : ℕ
  pub cycles : ℕ
  pub outside : G

-- How an instruction ends: `goto dispatch`, `return status`, or the recursive call of `opcode_call`.
pub data Flow : Type 0 where
  dispatch : Flow
  return : Status → Flow
  call : ℕ → Flow

abbrev pub Exec : Type 0 → Type 0 → Type 0
Exec G A = Cpu G → Option (A × Cpu G)

infixl 5 ◌>>=◌ ◌>>◌
unfoldable pub ◌>>=◌ : {G A B : Type 0} → Exec G A → (A → Exec G B) → Exec G B
◌>>=◌ m f c = elim (m c) [ none ↦ none | some (a, c') ↦ f a c' ]

abbrev pub ◌>>◌ : {G B : Type 0} → Exec G (Unit {0}) → Exec G B → Exec G B
m >> k = m >>= λ _. k

module _ {G A : Type 0} where
  unfoldable pub pure : A → Exec G A
  pure a c = some (a, c)

  unfoldable pub fault : Exec G A
  fault c = none

module _ {G : Type 0} where
  -- `data[a]`
  unfoldable pub load : ℕ → Exec G ℕ
  load a c = elim (get_elem? c.data_table a) [ none ↦ none | some v ↦ some (v, c) ]

  -- `data[a] = v`
  unfoldable pub store : ℕ → ℕ → Exec G (Unit {0})
  store a v c =
      if ltb a (length c.data_table)
      then some (tt, record c { data_table = set c.data_table a v })
      else none

  -- `pc = stream + addr`
  unfoldable pub jump : ℕ → Exec G (Unit {0})
  jump addr c = some (tt, record c { pc = addr })

  -- a call into the surroundings
  unfoldable pub effect : (G → G) → Exec G (Unit {0})
  effect f c = some (tt, record c { outside = f c.outside })

  unfoldable pub ask : {A : Type 0} → (G → A) → Exec G A
  ask f c = some (f c.outside, c)

  unfoldable pub guard : Bool → Exec G (Unit {0})
  guard b = if b then pure tt else fault

  module _ (code : List ℕ) where
    -- `*pc++`
    unfoldable pub fetch : Exec G ℕ
    fetch c = elim (get_elem? code c.pc) [
      | none ↦ none
      | some b ↦ some (b, record c { pc = c.pc + 1 })
    ]

    -- `data[*pc++]`
    unfoldable pub operand : Exec G ℕ
    operand = do a ← fetch; load a

    -- `addr = *pc++; addr += ( *pc++ ) << 8;`
    unfoldable pub address : Exec G ℕ
    address = do lo ← fetch; hi ← fetch; pure (lo + hi * 256)

    -- the four bytes of a `catbus_hash_t32`, high byte first
    unfoldable pub hash : Exec G ℕ
    hash = do
      b3 ← fetch
      b2 ← fetch
      b1 ← fetch
      b0 ← fetch
      pure (b3 * 0x1000000 + b2 * 0x10000 + b1 * 0x100 + b0)
