-- ===== src/Vm/Calls/Values.antt =====
-- The values that opcode_ltah and its like pass to the pixels, and those that opcode_rand draws.
use Prim.Native.Nat.{min}
use chromatron.Base.{
  ℕ, ◌+◌, ◌-◌, ◌%◌, ◌^◌, ◌≤◌, ◌<◌, ◌≡◌, ◌⊎◌, inl, inr, refl, ◌∙◌, some, List, ◌==◌, if◌then◌else◌,
  get_elem?, get_or, set, length, arith, Bool-cases,
}
use chromatron.Base.Int.{pos_part}
use chromatron.Word.{IsWord, magnitude, neg32, smod, to_u16, sub32, add32}
use chromatron.Word.Signed.{signed}
use chromatron.Random.{u16_get_int_with_seed}
use chromatron.Vm.Types.{Env, Attr}
use chromatron.Vm.Opcodes.{pixel_value, clamp_u16}
use chromatron.Vm.Cpu.{Cpu, dispatch, ◌>>=◌, pure}
use chromatron.Vm.Cpu.Steps.{bind-some, load-some, store-some, fetch-some}
use chromatron.Vm.Labels.{draw}
use chromatron.Vm.Calls.{rand}

-- A hue is the value modulo 2 ^ 16, for negative values too. The other attributes saturate: negative
-- values at 0, and large ones at 65535.
pub pixel_value_lem :
    (v : ℕ)
    → IsWord v
    → let saturated = min (pos_part (signed v)) 65535 in
      (pixel_value Attr.hue v ≡ v % 2 ^ 16)
      × (pixel_value Attr.sat v ≡ saturated)
      × (pixel_value Attr.val v ≡ saturated)
      × (pixel_value Attr.hs_fade v ≡ saturated)
      × (pixel_value Attr.v_fade v ≡ saturated)
unfolding pixel_value clamp_u16 to_u16 smod magnitude neg32
pixel_value_lem v h = (ground arith, ground arith, ground arith, ground arith, ground arith)

-- `val` of opcode_rand, and the seed after it
abbrev value : ℕ → ℕ → ℕ × ℕ
value diff seed =
    if diff == 0
    then (0, seed)
    else ((u16_get_int_with_seed seed).0 % diff, (u16_get_int_with_seed seed).1)

value-some :
    {G : Type 0} (env : Env G) (stream : List ℕ) (diff : ℕ) (c : Cpu G)
    → (if diff == 0 then pure 0 else (draw env stream >>= λ r. pure (r % diff))) c
      ≡ some ((value diff c.rng_seed).0, record c { rng_seed = (value diff c.rng_seed).1 })
unfolding draw pure ◌>>=◌
value-some env stream diff c = elim (Bool-cases (diff == 0)) [
  | inl same ↦ rw same refl
  | inr differ ↦ rw differ refl
]

value_range :
    (lo hi seed : ℕ)
    → lo ≤ hi
    → let w = (value (hi - lo) seed).0 + lo in (w < hi) ⊎ ((w ≡ lo) × (lo ≡ hi))
value_range lo hi seed h = ground arith

diff-sub : (lo hi : ℕ) → lo ≤ hi → hi < lo + 2 ^ 16 → IsWord hi → to_u16 (sub32 hi lo) ≡ hi - lo
unfolding to_u16 sub32
diff-sub lo hi h near word = omega arith

sum-add32 : (a b : ℕ) → a + b < 2 ^ 32 → add32 a b ≡ a + b
unfolding add32
sum-add32 a b h = omega arith

module _ {G : Type 0} (env : Env G) (stream : List ℕ) (c : Cpu G) (dest a b : ℕ)
    (first : get_elem? stream c.pc ≡ some dest) (second : get_elem? stream (c.pc + 1) ≡ some a)
    (third : get_elem? stream (c.pc + 1 + 1) ≡ some b) (in_dest : dest < length c.data_table)
    (in_a : a < length c.data_table) (in_b : b < length c.data_table) where
  abbrev lo : ℕ
  lo = get_or c.data_table a 0

  abbrev hi : ℕ
  hi = get_or c.data_table b 0

  -- opcode_rand with its three operands in the code and in the data section, for bounds whose 32-bit patterns are in
  -- order and less than 2 ^ 16 apart: it sets its cell to a number from the lower bound up to below the upper one,
  -- or to the lower one where they are equal, and nothing else changes but the seed and the place in the code.
  pub rand_range :
      lo ≤ hi
      → hi < lo + 2 ^ 16
      → IsWord hi
      → (w seed : ℕ) × (rand env stream c
          ≡ some (
            dispatch,
            record c {
              pc = c.pc + 1 + 1 + 1;
              data_table = set c.data_table dest w;
              rng_seed = seed;
            },
          ))
        × (lo ≤ w)
        × ((w < hi) ⊎ ((w ≡ lo) × (lo ≡ hi)))
  unfolding rand pure
  rand_range ordered near word = (
    (value (hi - lo) c.rng_seed).0 + lo,
    (value (hi - lo) c.rng_seed).1,
    bind-some _ _ (fetch-some stream c first)
        ∙ bind-some _ _ (fetch-some stream _ second)
        ∙ bind-some _ _ (fetch-some stream _ third)
        ∙ bind-some _ _ (load-some b _ in_b)
        ∙ bind-some _ _ (load-some a _ in_a)
        ∙ rw (diff-sub lo hi ordered near word) (
            bind-some _ _ (value-some env stream (hi - lo) _)
            ∙ rw
                (sum-add32 (value (hi - lo) c.rng_seed).0 lo
                  (omega (arith, value_range lo hi c.rng_seed ordered)))
                (bind-some _ _ (store-some dest _ _ in_dest))),
    omega arith,
    value_range lo hi c.rng_seed ordered,
  )
