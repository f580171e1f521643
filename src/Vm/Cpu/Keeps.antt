-- ===== src/Vm/Cpu/Keeps.antt =====
-- What every instruction keeps: the number of data cells, their range and the cycle counter. One rule
-- for each way to build an action.
use chromatron.Base.{
  ℕ, ◌≡◌, Bool, true, false, none, some, Option, List, if◌then◌else◌, length, length-set, All,
  All-set, All-get, get_elem?, ◌∙◌, ltb, Option-cases, inl, inr, Bool-cases,
}
use chromatron.Word.{IsWord}
use chromatron.Vm.Cpu.{
  Cpu, Exec, ◌>>=◌, pure, fault, load, store, jump, effect, ask, guard, fetch, operand, address,
  hash,
}

pub record IsShaped {G : Type 0} (cells cycles : ℕ) (c : Cpu G) : Type 0 where
  pub size : length c.data_table ≡ cells
  pub words : All IsWord c.data_table
  pub counted : c.cycles ≡ cycles

-- where an action does not fault, what it returns meets `Q` and the state has its shape
abbrev pub Ensures : {G A : Type 0} → ℕ → ℕ → (A → Type 0) → Option (A × Cpu G) → Type 0
Ensures n k Q none = Unit
Ensures n k Q (some (a, c)) = IsShaped n k c × Q a

pub record Keeps {G A : Type 0} (n k : ℕ) (Q : A → Type 0) (m : Exec G A) : Type 0 where
  pub at : (c : Cpu G) → IsShaped n k c → Ensures n k Q (m c)

abbrev pub Any : {A : Type 0} → A → Type 0
Any a = Unit

module _ {G : Type 0} {n k : ℕ} where
  pub Keeps-pure : {A : Type 0} {Q : A → Type 0} (a : A) → Q a → Keeps {G = G} n k Q (pure a)
  unfolding pure
  Keeps-pure a q = record { at = λ c s. (s, q) }

  pub Keeps-fault : {A : Type 0} (Q : A → Type 0) → Keeps {G = G} n k Q fault
  unfolding fault
  Keeps-fault Q = record { at = λ c s. tt }

  module _ {A B : Type 0} {Q : A → Type 0} {R : B → Type 0} where
    Ensures-bind :
        (f : A → Exec G B) (r : Option (A × Cpu G))
        → ((a : A) → Q a → Keeps n k R (f a))
        → Ensures n k Q r
        → Ensures n k R (elim r [ none ↦ none | some (a, c') ↦ f a c' ])
    Ensures-bind f none kf e = tt
    Ensures-bind f (some (a, c)) kf e = (kf a e.1).at c e.0

    pub Keeps-bind :
        {m : Exec G A} {f : A → Exec G B}
        → Keeps n k Q m
        → ((a : A) → Q a → Keeps n k R (f a))
        → Keeps n k R (m >>= f)
    unfolding ◌>>=◌
    Keeps-bind {m} {f} km kf = record { at = λ c s. Ensures-bind f (m c) kf (km.at c s) }

  pub Keeps-if :
      {A : Type 0} {Q : A → Type 0} (b : Bool) {m l : Exec G A}
      → Keeps n k Q m
      → Keeps n k Q l
      → Keeps n k Q (if b then m else l)
  Keeps-if true km kl = km
  Keeps-if false km kl = kl

  pub Keeps-load : (a : ℕ) → Keeps {G = G} n k IsWord (load a)
  unfolding load
  Keeps-load a = record {
    at = λ c s. elim (Option-cases (get_elem? c.data_table a)) [
      | inl out ↦ rw (out, Ensures) tt
      | inr (v, hit) ↦ rw (hit, Ensures) (s, All-get IsWord c.data_table a s.words hit)
    ];
  }

  pub Keeps-store : (a v : ℕ) → IsWord v → Keeps {G = G} n k Any (store a v)
  unfolding store
  Keeps-store a v w = record {
    at = λ c s. elim (Bool-cases (ltb a (length c.data_table))) [
      | inl inside ↦ rw inside (
        record {
          size = length-set c.data_table a v ∙ s.size;
          words = All-set IsWord c.data_table a v s.words w;
          counted = s.counted;
        },
        tt,
      )
      | inr out ↦ rw (out, Ensures) tt
    ];
  }

  pub Keeps-jump : (addr : ℕ) → Keeps {G = G} n k Any (jump addr)
  unfolding jump
  Keeps-jump addr = record {
    at = λ c s. (record { size = s.size; words = s.words; counted = s.counted }, tt);
  }

  pub Keeps-effect : (f : G → G) → Keeps n k Any (effect f)
  unfolding effect
  Keeps-effect f = record {
    at = λ c s. (record { size = s.size; words = s.words; counted = s.counted }, tt);
  }

  pub Keeps-ask : {A : Type 0} (f : G → A) → Keeps n k Any (ask f)
  unfolding ask
  Keeps-ask f = record { at = λ c s. (s, tt) }

  pub Keeps-guard : (b : Bool) → Keeps {G = G} n k Any (guard b)
  unfolding guard pure fault
  Keeps-guard true = record { at = λ c s. (s, tt) }
  Keeps-guard false = record { at = λ c s. tt }

  module _ (code : List ℕ) where
    pub Keeps-fetch : Keeps {G = G} n k Any (fetch code)
    unfolding fetch
    Keeps-fetch = record {
      at = λ c s. elim (Option-cases (get_elem? code c.pc)) [
        | inl out ↦ rw (out, Ensures) tt
        | inr (v, hit) ↦
            rw (hit, Ensures) (record { size = s.size; words = s.words; counted = s.counted }, tt)
      ];
    }

    pub Keeps-operand : Keeps {G = G} n k IsWord (operand code)
    unfolding operand
    Keeps-operand = Keeps-bind Keeps-fetch λ a _. Keeps-load a

    pub Keeps-address : Keeps {G = G} n k Any (address code)
    unfolding address
    Keeps-address = Keeps-bind Keeps-fetch λ lo _. Keeps-bind Keeps-fetch λ hi _. Keeps-pure _ tt

    pub Keeps-hash : Keeps {G = G} n k Any (hash code)
    unfolding hash
    Keeps-hash = Keeps-bind Keeps-fetch λ b3 _.
        Keeps-bind Keeps-fetch
          λ b2 _. Keeps-bind Keeps-fetch λ b1 _. Keeps-bind Keeps-fetch λ b0 _. Keeps-pure _ tt

    -- The rules for a bind, with what the first action is known to return.
    pub Keeps-operand-bind :
        {B : Type 0} {f : ℕ → Exec G B}
        → ((v : ℕ) → IsWord v → Keeps n k Any (f v))
        → Keeps n k Any (operand code >>= f)
    Keeps-operand-bind kf = Keeps-bind Keeps-operand kf

  pub Keeps-load-bind :
      {B : Type 0} {f : ℕ → Exec G B} (a : ℕ)
      → ((v : ℕ) → IsWord v → Keeps n k Any (f v))
      → Keeps n k Any (load a >>= f)
  Keeps-load-bind a kf = Keeps-bind (Keeps-load a) kf

  pub Keeps-then :
      {A B : Type 0} {m : Exec G A} {f : A → Exec G B}
      → Keeps n k Any m
      → ((a : A) → Keeps n k Any (f a))
      → Keeps n k Any (m >>= f)
  Keeps-then km kf = Keeps-bind km λ a _. kf a
