-- ===== src/Random.antt =====
-- src/sapphireos/random.c: a pseudo-random sequence from two linear feedback shift registers. A
-- 64-bit seed holds both: the pointer cast of `rnd_u16_get_int_with_seed` reads its low word as the
-- 31-bit register and its high word as the 32-bit one.
pub mod Registers
pub mod Seeds
use Prim.Native.Nat.{bit_xor}
use chromatron.Base.{
  ℕ, ◌+◌, ◌*◌, ◌/◌, ◌%◌, ◌^◌, Bool, ◌==◌, if◌then◌else◌, List, [], ◌∷◌, zero, suc,
}

abbrev pub poly32 : ℕ
poly32 = 0xB4BCD35C

abbrev pub poly31 : ℕ
poly31 = 0x7A5BC2E3

unfoldable pub shift_lfsr32 : ℕ → ℕ → ℕ
shift_lfsr32 lfsr mask = if lfsr % 2 == 1 then bit_xor (lfsr / 2) mask else lfsr / 2

pub record Lfsr : Type 0 where
  pub lfsr31 : ℕ
  pub lfsr32 : ℕ

-- The value drawn and the registers after it. `& 0xffff` is the remainder modulo 2 ^ 16.
unfoldable pub rand31_32 : Lfsr → ℕ × Lfsr
rand31_32 r =
    let next32 = shift_lfsr32 (shift_lfsr32 r.lfsr32 poly32) poly32 in
    let next31 = shift_lfsr32 r.lfsr31 poly31 in
    (bit_xor next32 next31 % 2 ^ 16, record { lfsr31 = next31; lfsr32 = next32 })

-- `rnd_v_seed`: a register is never seeded with 0.
unfoldable pub seed : ℕ → Lfsr
seed s = record {
  lfsr31 = if s / 2 ^ 32 == 0 then 1 else s / 2 ^ 32;
  lfsr32 = if s % 2 ^ 32 == 0 then 1 else s % 2 ^ 32;
}

-- `rnd_u64_get_seed`
unfoldable pub get_seed : Lfsr → ℕ
get_seed r = r.lfsr31 * 2 ^ 32 + r.lfsr32

abbrev pub unpack : ℕ → Lfsr
unpack s = record { lfsr31 = s % 2 ^ 32; lfsr32 = s / 2 ^ 32 }

abbrev pub repack : Lfsr → ℕ
repack r = r.lfsr31 + r.lfsr32 * 2 ^ 32

-- `rnd_u16_get_int_with_seed`: the value and the new seed.
unfoldable pub u16_get_int_with_seed : ℕ → ℕ × ℕ
u16_get_int_with_seed s = let (v, r) = rand31_32 (unpack s) in (v, repack r)

-- `rnd_u8_get_int_with_seed`
unfoldable pub u8_get_int_with_seed : ℕ → ℕ × ℕ
u8_get_int_with_seed s = let (v, r) = rand31_32 (unpack s) in (v % 2 ^ 8, repack r)

-- `rnd_v_init`, with the device id that the configuration holds
abbrev pub init : ℕ → Lfsr
init device_id = seed device_id

-- `rnd_u16_get_int` and `rnd_u8_get_int`, on the module's own registers.
abbrev pub u16_get_int : Lfsr → ℕ × Lfsr
u16_get_int r = rand31_32 r

unfoldable pub u8_get_int : Lfsr → ℕ × Lfsr
u8_get_int r = let (v, r') = rand31_32 r in (v % 2 ^ 8, r')

-- `rnd_v_fill`: the bytes written, and the registers after them.
unfoldable pub fill : ℕ → Lfsr → List ℕ × Lfsr
fill zero r = ([], r)
fill (suc len) r = let (v, r') = u8_get_int r in let (vs, r'') = fill len r' in (v ∷ vs, r'')
