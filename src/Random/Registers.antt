-- ===== src/Random/Registers.antt =====
-- Which states the two shift registers can reach.
use chromatron.Base.{ℕ, zero, suc, ◌*◌, ◌/◌, ◌%◌, ◌^◌, ◌≤◌, ◌<◌, ◌≡◌, ◌≢◌, refl, arith}
use chromatron.Base.Bits.{eq_of_bit_xor, bit_xor-lt, zero-bit_xor}
use chromatron.Random.{Lfsr, poly31, poly32, shift_lfsr32, rand31_32, seed, u16_get_int_with_seed}

-- Registers in range, the first of 31 bits, and not stuck at 0.
pub record IsLive (r : Lfsr) : Type 0 where
  pub live31 : r.lfsr31 ≢ 0
  pub live32 : r.lfsr32 ≢ 0
  pub size31 : r.lfsr31 < 2 ^ 31
  pub size32 : r.lfsr32 < 2 ^ 32

-- A step keeps a register within the bits of its mask, and off 0.
shift_lfsr32-live :
    (k lfsr mask : ℕ)
    → lfsr < 2 ^ k * 2
    → 2 ^ k ≤ mask
    → mask < 2 ^ suc k
    → 2 ^ suc k ≡ 2 ^ k * 2
    → lfsr ≢ 0
    → (shift_lfsr32 lfsr mask ≢ 0) × (shift_lfsr32 lfsr mask < 2 ^ k * 2)
unfolding shift_lfsr32
shift_lfsr32-live k lfsr mask h top room p ne =
    ground (arith, eq_of_bit_xor (lfsr / 2) mask, bit_xor-lt (suc k) (lfsr / 2) mask)

-- Registers that are live, not 0 and within 31 and 32 bits, stay so when a number is drawn.
pub rand31_32-IsLive : {r : Lfsr} → IsLive r → IsLive (rand31_32 r).1
unfolding rand31_32
rand31_32-IsLive {r} live = record { live31 = a.0; live32 = c.0; size31 = a.1; size32 = c.1 }
  where
    a : (shift_lfsr32 r.lfsr31 poly31 ≢ 0) × (shift_lfsr32 r.lfsr31 poly31 < 2 ^ 31)
    a =
        shift_lfsr32-live 30 r.lfsr31 poly31 live.size31 (omega arith) (omega arith) refl
          live.live31

    b : (shift_lfsr32 r.lfsr32 poly32 ≢ 0) × (shift_lfsr32 r.lfsr32 poly32 < 2 ^ 32)
    b =
        shift_lfsr32-live 31 r.lfsr32 poly32 live.size32 (omega arith) (omega arith) refl
          live.live32

    c :
        (shift_lfsr32 (shift_lfsr32 r.lfsr32 poly32) poly32 ≢ 0)
        × (shift_lfsr32 (shift_lfsr32 r.lfsr32 poly32) poly32 < 2 ^ 32)
    c = shift_lfsr32-live 31 _ poly32 b.1 (omega arith) (omega arith) refl b.0

-- rnd_v_seed makes live registers of every seed below 2 ^ 63.
pub seed-IsLive : (s : ℕ) → s < 2 ^ 63 → IsLive (seed s)
unfolding seed
seed-IsLive s h = ground arith

-- A seed is not cut to 31 bits for the first register. Where the high word is 0xF4B785C7, one draw
-- after rnd_v_seed brings that register to 0.
pub seed_dies : (s : ℕ) → s / 2 ^ 32 ≡ 0xF4B785C7 → (rand31_32 (seed s)).1.lfsr31 ≡ 0
unfolding rand31_32 seed
seed_dies s h = rw h (unfold shift_lfsr32 in refl)

-- The seed after `n` draws.
unfoldable pub draws : ℕ → ℕ → ℕ
draws zero s = s
draws (suc n) s = draws n (u16_get_int_with_seed s).1

shift_lfsr32-lt : (lfsr : ℕ) → lfsr < 2 ^ 32 → shift_lfsr32 lfsr poly31 < 2 ^ 32
unfolding shift_lfsr32
shift_lfsr32-lt lfsr h = ground (arith, bit_xor-lt 32 (lfsr / 2) poly31)

shift_zero : shift_lfsr32 0 poly32 ≡ 0
unfolding shift_lfsr32
shift_zero = refl

-- with the 32-bit register at 0
next_stuck :
    (s : ℕ)
    → s < 2 ^ 32
    → u16_get_int_with_seed s ≡ (shift_lfsr32 s poly31 % 2 ^ 16, shift_lfsr32 s poly31)
unfolding u16_get_int_with_seed rand31_32
next_stuck s h =
    let low : s % 2 ^ 32 ≡ s = omega arith in
    let high : s / 2 ^ 32 ≡ 0 = omega arith in
    rw (low, high, shift_zero, shift_zero, zero-bit_xor) (ground arith)

-- A seed whose high word is 0, as the 1 that vm_i8_load_program sets, leaves the 32-bit register at 0
-- for ever: each number drawn, and the next seed, is a step of the other register alone.
pub draws_stuck :
    (n s : ℕ)
    → s < 2 ^ 32
    → let t = draws n s in
      (t < 2 ^ 32)
      × (u16_get_int_with_seed t ≡ (shift_lfsr32 t poly31 % 2 ^ 16, shift_lfsr32 t poly31))
unfolding draws
draws_stuck zero s h = (h, next_stuck s h)
draws_stuck (suc n) s h =
    rw (next_stuck s h) (draws_stuck n (shift_lfsr32 s poly31) (shift_lfsr32-lt s h))
