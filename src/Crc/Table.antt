-- ===== src/Crc/Table.antt =====
-- The table against the shift register that it tabulates.
use Prim.Native.Nat.{bit_xor}
use chromatron.Base.{
  ℕ, zero, suc, ◌*◌, ◌%◌, ◌^◌, ◌<◌, ◌≡◌, refl, Bool, true, false, leb, ◌==◌, ==_iff, if◌then◌else◌,
  get_or, arith, ltb, ltb→lt,
}
use chromatron.Crc.{crctab}

-- One bit of the division by the polynomial 0x1021: the register is shifted to the left, and the
-- polynomial is subtracted where a one falls out.
unfoldable pub shift_bit : ℕ → ℕ
shift_bit crc = if leb (2 ^ 15) crc then bit_xor (crc * 2 % 2 ^ 16) 0x1021 else crc * 2

unfoldable pub shift_bits : ℕ → ℕ → ℕ
shift_bits zero crc = crc
shift_bits (suc n) crc = shift_bits n (shift_bit crc)

-- a test of the numbers below a bound
passes : (ℕ → Bool) → ℕ → Bool
passes test zero = true
passes test (suc bound) = elim (test bound) [ true ↦ passes test bound | false ↦ false ]

passes_at : (test : ℕ → Bool) (bound t : ℕ) → t < bound → passes test bound ≡ true → test t ≡ true
unfolding passes
passes_at test zero t below ok = absurd (omega arith)
passes_at test (suc bound) t below ok = ground (arith, passes_at test bound t)

abbrev agrees : ℕ → Bool
agrees entry = get_or crctab entry 0 == shift_bits 8 (entry * 2 ^ 8)

agrees_everywhere : passes agrees 256 ≡ true
unfolding passes shift_bits shift_bit
agrees_everywhere = refl

-- Each of the 256 entries of the table is what eight steps of the shift register make of its index.
pub crctab-shift_bits : (t : ℕ) → t < 256 → get_or crctab t 0 ≡ shift_bits 8 (t * 2 ^ 8)
crctab-shift_bits t below = (==_iff _ _).0 (passes_at agrees 256 t below agrees_everywhere)

abbrev in_range : ℕ → Bool
in_range entry = ltb (get_or crctab entry 0) (2 ^ 16)

in_range_everywhere : passes in_range 256 ≡ true
unfolding passes
in_range_everywhere = refl

pub crctab-lt : (t : ℕ) → t < 256 → get_or crctab t 0 < 2 ^ 16
crctab-lt t below = ltb→lt _ _ (passes_at in_range 256 t below in_range_everywhere)
