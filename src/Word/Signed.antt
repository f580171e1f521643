-- ===== src/Word/Signed.antt =====
-- The signed values of the C operations on bit patterns.
use chromatron.Base.{ℕ, ◌-◌, ◌^◌, ◌≡◌, ◌↔◌, true, arith, ltb, if◌then◌else◌}
use chromatron.Base.Int.{ℤ, pos, negsuc, ◌+ℤ◌, ◌-ℤ◌, ◌≤ℤ◌, ◌<ℤ◌}
use chromatron.Word.{IsWord, add32, sub32, slt, sle}

-- The number that a pattern stands for.
abbrev pub signed : ℕ → ℤ
signed w = if ltb w (2 ^ 31) then pos w else negsuc (2 ^ 32 - w - 1)

-- The values of an `int32_t`.
abbrev pub InRange : ℤ → Type 0
InRange z = (negsuc (2 ^ 31 - 1) ≤ℤ z) × (z ≤ℤ pos (2 ^ 31 - 1))

-- The test on patterns is the order of the signed values.
pub slt_iff : (a b : ℕ) → IsWord a → IsWord b → (slt a b ≡ true) ↔ (signed a <ℤ signed b)
unfolding slt
slt_iff a b ha hb = ground arith

pub sle_iff : (a b : ℕ) → IsWord a → IsWord b → (sle a b ≡ true) ↔ (signed a ≤ℤ signed b)
unfolding sle
sle_iff a b ha hb = ground arith

-- Where the true sum or difference fits, the wrapping operation gives it.
pub signed-add32 :
    (a b : ℕ)
    → IsWord a
    → IsWord b
    → InRange (signed a +ℤ signed b)
    → signed (add32 a b) ≡ signed a +ℤ signed b
unfolding add32 ◌+ℤ◌
signed-add32 a b ha hb r = ground arith

pub signed-sub32 :
    (a b : ℕ)
    → IsWord a
    → IsWord b
    → InRange (signed a -ℤ signed b)
    → signed (sub32 a b) ≡ signed a -ℤ signed b
unfolding sub32 ◌-ℤ◌
signed-sub32 a b ha hb r = ground arith
