-- ===== src/Crc/Residue.antt =====
-- A block that ends in its own checksum has checksum 0: what a sender appends, a receiver accepts.
use Prim.Native.Nat.{bit_xor}
use chromatron.Base.{
  ℕ, ◌+◌, ◌*◌, ◌/◌, ◌%◌, ◌^◌, ◌<◌, ◌≡◌, refl, ◌∙◌, List, [], ◌∷◌, ◌++◌, get_or, arith, All, ap,
  subst,
}
use chromatron.Base.Bits.{bit_xor-split, bit_xor-lt, bit_xor-cancel, bit_xor_self, zero-bit_xor}
use chromatron.Base.Bytes.Laws.{IsByte}
use chromatron.Crc.{crctab, u16_byte, u16_partial_block, u16_finish, u16_block, u16_start}
use chromatron.Crc.Table.{crctab-lt}

partial_block-append :
    (crc : ℕ) (xs ys : List ℕ)
    → u16_partial_block crc (xs ++ ys) ≡ u16_partial_block (u16_partial_block crc xs) ys
unfolding u16_partial_block
partial_block-append crc [] ys = refl
partial_block-append crc (x ∷ xs) ys = partial_block-append (u16_byte crc x) xs ys

-- the table entry that a byte step uses, by its two bytes
abbrev high : ℕ → ℕ
high t = get_or crctab t 0 / 2 ^ 8

abbrev low : ℕ → ℕ
low t = get_or crctab t 0 % 2 ^ 8

byte_parts :
    (h l b : ℕ)
    → h < 2 ^ 8
    → l < 2 ^ 8
    → b < 2 ^ 8
    → u16_byte (h * 2 ^ 8 + l) b ≡ bit_xor l (high h) * 2 ^ 8 + bit_xor b (low h)
unfolding u16_byte
byte_parts h l b hh hl hb =
    let top : (h * 2 ^ 8 + l) / 2 ^ 8 ≡ h = omega arith in
    let bottom : (h * 2 ^ 8 + l) * 2 ^ 8 % 2 ^ 16 ≡ l * 2 ^ 8 = omega arith in
    let entry : get_or crctab h 0 ≡ high h * 2 ^ 8 + low h = omega arith in
    rw (top, bottom)
      (ap (bit_xor (l * 2 ^ 8 + b)) entry ∙ bit_xor-split 8 l (high h) b (low h) hb (omega arith))

high-lt : (h : ℕ) → h < 2 ^ 8 → high h < 2 ^ 8
high-lt h hh = omega (arith, crctab-lt h hh)

-- two byte steps from a state with bytes `h` and `l`
two_bytes :
    (h l b1 b2 : ℕ)
    → h < 2 ^ 8
    → l < 2 ^ 8
    → b1 < 2 ^ 8
    → b2 < 2 ^ 8
    → let m = bit_xor l (high h) in
      u16_byte (u16_byte (h * 2 ^ 8 + l) b1) b2
      ≡ bit_xor (bit_xor b1 (low h)) (high m) * 2 ^ 8 + bit_xor b2 (low m)
two_bytes h l b1 b2 hh hl h1 h2 = rw (byte_parts h l b1 hh hl h1) (
    byte_parts (bit_xor l (high h)) (bit_xor b1 (low h)) b2
      (bit_xor-lt 8 l (high h) hl (high-lt h hh)) (bit_xor-lt 8 b1 (low h) h1 (omega arith)) h2)

finish_parts :
    (h l : ℕ)
    → h < 2 ^ 8
    → l < 2 ^ 8
    → let m = bit_xor l (high h) in
      u16_finish (h * 2 ^ 8 + l) ≡ bit_xor (low h) (high m) * 2 ^ 8 + low m
unfolding u16_finish
finish_parts h l hh hl =
    two_bytes h l 0 0 hh hl (omega arith) (omega arith) ∙ rw (zero-bit_xor, zero-bit_xor) refl

-- The two bytes of the checksum bring the register to 0.
checksum_bytes :
    (crc : ℕ)
    → crc < 2 ^ 16
    → u16_byte (u16_byte crc (u16_finish crc / 2 ^ 8)) (u16_finish crc % 2 ^ 8) ≡ 0
checksum_bytes crc h =
    let e : crc / 2 ^ 8 * 2 ^ 8 + crc % 2 ^ 8 ≡ crc = omega arith in
    subst (λ c. u16_byte (u16_byte c (u16_finish c / 2 ^ 8)) (u16_finish c % 2 ^ 8) ≡ 0) e
      (of_parts (crc / 2 ^ 8) (crc % 2 ^ 8) (omega arith) (omega arith))
  where
    of_parts :
        (h l : ℕ)
        → h < 2 ^ 8
        → l < 2 ^ 8
        → let c = h * 2 ^ 8 + l in
          u16_byte (u16_byte c (u16_finish c / 2 ^ 8)) (u16_finish c % 2 ^ 8) ≡ 0
    of_parts h l hh hl =
        let m : ℕ = bit_xor l (high h) in
        let hm : high m < 2 ^ 8 = high-lt m (bit_xor-lt 8 l (high h) hl (high-lt h hh)) in
        let b : bit_xor (low h) (high m) < 2 ^ 8 = bit_xor-lt 8 (low h) (high m) (omega arith) hm in
        let top : (bit_xor (low h) (high m) * 2 ^ 8 + low m) / 2 ^ 8 ≡ bit_xor (low h) (high m) =
          omega arith in
        let bottom : (bit_xor (low h) (high m) * 2 ^ 8 + low m) % 2 ^ 8 ≡ low m = omega arith in
        rw (finish_parts h l hh hl, top, bottom)
          (two_bytes h l (bit_xor (low h) (high m)) (low m) hh hl b (omega arith)
            ∙ rw (bit_xor-cancel (low h) (high m), bit_xor_self) refl)

u16_byte-lt : (crc b : ℕ) → crc < 2 ^ 16 → b < 2 ^ 8 → u16_byte crc b < 2 ^ 16
unfolding u16_byte
u16_byte-lt crc b h hb = bit_xor-lt 16 _ _ (omega arith) (crctab-lt (crc / 2 ^ 8) (omega arith))

partial_block-lt :
    (crc : ℕ) (bs : List ℕ) → crc < 2 ^ 16 → All IsByte bs → u16_partial_block crc bs < 2 ^ 16
unfolding u16_partial_block
partial_block-lt crc [] h b = h
partial_block-lt crc (x ∷ xs) h b =
    partial_block-lt (u16_byte crc x) xs (u16_byte-lt crc x h b.0) b.1

finish-zero : u16_finish 0 ≡ 0
unfolding u16_finish u16_byte
finish-zero = refl

-- A block of bytes followed by its checksum, high byte first, has checksum 0.
pub u16_block-append :
    (bs : List ℕ)
    → All IsByte bs
    → u16_block (bs ++ (u16_block bs / 2 ^ 8 ∷ u16_block bs % 2 ^ 8 ∷ [])) ≡ 0
unfolding u16_block u16_partial_block
u16_block-append bs b =
    ap u16_finish (
      partial_block-append u16_start bs _
      ∙ checksum_bytes (u16_partial_block u16_start bs)
          (partial_block-lt u16_start bs (omega arith) b))
    ∙ finish-zero
