-- ===== src/Util/Sequence.antt =====
-- The order of sequence numbers that wrap around.
use native.Mathlib.Nat.{mod-eq_of_lt, mod-eq-sub-mod}
use chromatron.Base.{ℕ, ◌+◌, ◌-◌, ◌*◌, ◌%◌, ◌≤◌, ◌<◌, ◌≡◌, ◌↔◌, ◌∙◌, arith, dec_lt}
use chromatron.Base.Int.{pos, negsuc}
use chromatron.Util.{compare_sequence}

mod_wrapped : (n x : ℕ) → n ≤ x → x < 2 * n → x % n ≡ x - n
mod_wrapped n x h l = mod-eq-sub-mod h ∙ mod-eq_of_lt (omega arith)

-- The comparison, with the distance between its numbers known.
module _ (half d : ℕ) (p : 0 < d) (l : d < half) where
  after : (a b : ℕ) → (a + 2 * half - b) % (2 * half) ≡ d → compare_sequence half a b ≡ pos 1
  unfolding compare_sequence
  after a b e = rw e (ground arith)

  before :
      (a b : ℕ)
      → (a + 2 * half - b) % (2 * half) ≡ 2 * half - d
      → compare_sequence half a b ≡ negsuc 0
  unfolding compare_sequence
  before a b e = rw e (ground arith)

-- Less than half the range ahead of a number counts as after it, across the wrap too, and the number
-- as before what is ahead of it.
pub compare_sequence-ahead :
    (half a d : ℕ)
    → a < 2 * half
    → 0 < d
    → d < half
    → let later : ℕ = (a + d) % (2 * half) in
      (compare_sequence half later a ≡ pos 1) × (compare_sequence half a later ≡ negsuc 0)
compare_sequence-ahead half a d h p l = elim (dec_lt (a + d) (2 * half)) [
  | yes straight ↦
      let e : (a + d) % (2 * half) ≡ a + d = mod-eq_of_lt straight in
      (
        after half d p l _ a
            (mod_wrapped (2 * half) _ (omega (arith, e)) (omega (arith, e)) ∙ omega (arith, e)),
        before half d p l a _ (mod-eq_of_lt (omega (arith, e)) ∙ omega (arith, e)),
      )
  | no wrapped ↦
      let e : (a + d) % (2 * half) ≡ a + d - 2 * half =
        mod_wrapped (2 * half) (a + d) (omega arith) (omega arith) in
      (
        after half d p l _ a (mod-eq_of_lt (omega (arith, e)) ∙ omega (arith, e)),
        before half d p l a _
            (mod_wrapped (2 * half) _ (omega (arith, e)) (omega (arith, e)) ∙ omega (arith, e)),
      )
]

-- Numbers of the range are equal where the comparison gives 0, and only there.
pub compare_sequence-eq :
    (half a b : ℕ) → a < 2 * half → b < 2 * half → (compare_sequence half a b ≡ pos 0) ↔ (a ≡ b)
unfolding compare_sequence
compare_sequence-eq half a b ha hb = elim (dec_lt a b) [
  | yes less ↦
      let e : (a + 2 * half - b) % (2 * half) ≡ a + 2 * half - b = mod-eq_of_lt (omega arith) in
      rw e (ground arith)
  | no more ↦
      let e : (a + 2 * half - b) % (2 * half) ≡ a + 2 * half - b - 2 * half =
        mod_wrapped (2 * half) _ (omega arith) (omega arith) in
      rw e (ground arith)
]
