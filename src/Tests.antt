-- ===== src/Tests.antt =====
-- Tests of the arithmetic, the checksum and the random numbers, and their theorems at concrete inputs.
use chromatron.Crc.{crctab}
use chromatron.Crc.Table.{shift_bits, crctab-shift_bits}
use chromatron.Base.{get_or, ℕ, ◌-◌, ◌/◌, ◌%◌, ◌^◌, ◌≡◌, refl, List, [], ◌∷◌, ◌++◌, arith}
use chromatron.Word.{sdiv, smod, magnitude, neg32}
use chromatron.Crc.{u16_block, u16_finish, u16_partial_block, u16_byte}
use chromatron.Crc.Residue.{u16_block-append}

-- -7 / 2 is -3, with remainder -1.
minus_seven : (sdiv (2 ^ 32 - 7) 2 ≡ 2 ^ 32 - 3) × (smod (2 ^ 32 - 7) 2 ≡ 2 ^ 32 - 1)
unfolding sdiv smod magnitude neg32
minus_seven = (refl, refl)

-- the check value of CRC-CCITT with this start value and augmentation, "123456789"
nine_digits : u16_block (49 ∷ 50 ∷ 51 ∷ 52 ∷ 53 ∷ 54 ∷ 55 ∷ 56 ∷ 57 ∷ []) ≡ 0xe5cc
unfolding u16_block u16_finish u16_partial_block u16_byte
nine_digits = refl

u16_block-append_example :
    let bs : List ℕ = 70 ∷ 88 ∷ [] in
    u16_block (bs ++ (u16_block bs / 2 ^ 8 ∷ u16_block bs % 2 ^ 8 ∷ [])) ≡ 0
u16_block-append_example = u16_block-append (70 ∷ 88 ∷ []) (omega arith)

crctab-shift_bits_example : get_or crctab 0x80 0 ≡ shift_bits 8 0x8000
crctab-shift_bits_example = crctab-shift_bits 0x80 (omega arith)
