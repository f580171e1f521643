-- ===== src/Base/Bits.antt =====
-- Laws of the exclusive or at variables, from the recursion on digits that it stands for.
use Prim.Native.Nat.{
  ℕ, zero, suc, ◌+◌, ◌*◌, ◌/◌, ◌%◌, ◌^◌, ◌≤◌, ◌<◌, bit_xor, digits, differ, bit_xor-bitwise,
}
use mathlib.Core.Path.{◌≡◌, refl}
use native.Mathlib.Omega.{arith}
use native.Mathlib.Nat.{pow-suc}

abbrev xor_digits : ℕ → ℕ → ℕ → ℕ
xor_digits n a b = digits (λ d. d) differ n a b

differ-add_mod : (a b : ℕ) → differ (a % 2) (b % 2) ≡ (a + b) % 2
differ-add_mod a b = go (a % 2) (b % 2) refl refl
  where
    go : (x y : ℕ) → a % 2 ≡ x → b % 2 ≡ y → differ x y ≡ (a + b) % 2
    go zero zero p q = omega arith
    go zero (suc zero) p q = omega arith
    go zero (suc (suc y)) p q = absurd (omega arith)
    go (suc zero) zero p q = omega arith
    go (suc zero) (suc zero) p q = omega arith
    go (suc zero) (suc (suc y)) p q = absurd (omega arith)
    go (suc (suc x)) y p q = absurd (omega arith)

-- Fuel above the first operand changes nothing.
xor_digits_settled : (k j x y : ℕ) → x ≤ j → j ≤ k → xor_digits k x y ≡ xor_digits j x y
xor_digits_settled (suc k) (suc j) (suc x) y below within =
    let half : suc x / 2 ≤ j = omega arith in
    omega (arith, xor_digits_settled k j (suc x / 2) (y / 2) half (omega arith))
xor_digits_settled (suc k) (suc j) zero y below within = refl
xor_digits_settled (suc k) zero (suc x) y below within = absurd (omega arith)
xor_digits_settled (suc k) zero zero y below within = refl
xor_digits_settled zero (suc j) x y below within = absurd (omega arith)
xor_digits_settled zero zero x y below within = refl

pub zero-bit_xor : (b : ℕ) → bit_xor 0 b ≡ b
zero-bit_xor b = bit_xor-bitwise 0 b

-- The law for the lowest digit.
pub bit_xor_step : (a b : ℕ) → bit_xor a b ≡ bit_xor (a / 2) (b / 2) * 2 + (a + b) % 2
bit_xor_step zero b = omega (arith, zero-bit_xor (b / 2), zero-bit_xor b)
bit_xor_step (suc a) b =
    let half : suc a / 2 ≤ a = omega arith in
    omega (
      arith,
      differ-add_mod (suc a) b,
      xor_digits_settled a (suc a / 2) (suc a / 2) (b / 2) (omega arith) half,
      bit_xor-bitwise (suc a / 2) (b / 2),
      bit_xor-bitwise (suc a) b,
    )

xor_self_fuel : (n a : ℕ) → a ≤ n → bit_xor a a ≡ 0
xor_self_fuel zero a h = let e : a ≡ 0 = omega arith in rw e refl
xor_self_fuel (suc n) zero h = refl
xor_self_fuel (suc n) (suc a) h =
    omega (arith, bit_xor_step (suc a) (suc a), xor_self_fuel n (suc a / 2) (omega arith))

pub bit_xor_self : (a : ℕ) → bit_xor a a ≡ 0
bit_xor_self a = xor_self_fuel a a (omega arith)

eq_fuel : (n a b : ℕ) → a ≤ n → b ≤ n → bit_xor a b ≡ 0 → a ≡ b
eq_fuel zero a b h k e = omega arith
eq_fuel (suc n) a b h k e = omega (
  arith,
  bit_xor_step a b,
  eq_fuel n (a / 2) (b / 2) (omega arith) (omega arith) (omega (arith, bit_xor_step a b)),
)

pub eq_of_bit_xor : (a b : ℕ) → bit_xor a b ≡ 0 → a ≡ b
eq_of_bit_xor a b e = eq_fuel (a + b) a b (omega arith) (omega arith) e

pub bit_xor-div_two : (a b : ℕ) → bit_xor a b / 2 ≡ bit_xor (a / 2) (b / 2)
bit_xor-div_two a b = omega (arith, bit_xor_step a b)

pub bit_xor-mod_two : (a b : ℕ) → bit_xor a b % 2 ≡ (a + b) % 2
bit_xor-mod_two a b = omega (arith, bit_xor_step a b)

cancel_fuel : (n a b : ℕ) → a ≤ n → b ≤ n → bit_xor (bit_xor (bit_xor a b) a) b ≡ 0
cancel_fuel zero a b h k =
    let e : a ≡ 0 = omega arith in let e' : b ≡ 0 = omega arith in rw (e, e') refl
cancel_fuel (suc n) a b h k =
    let halves : bit_xor (bit_xor (bit_xor a b) a) b / 2 ≡ 0 =
      rw (bit_xor-div_two, bit_xor-div_two, bit_xor-div_two)
        (cancel_fuel n (a / 2) (b / 2) (omega arith) (omega arith)) in
    omega (
      arith,
      bit_xor-mod_two a b,
      bit_xor-mod_two (bit_xor a b) a,
      bit_xor-mod_two (bit_xor (bit_xor a b) a) b,
    )

-- Exclusive or with two numbers twice, crosswise.
pub bit_xor-cancel : (a b : ℕ) → bit_xor (bit_xor (bit_xor a b) a) b ≡ 0
bit_xor-cancel a b = cancel_fuel (a + b) a b (omega arith) (omega arith)

split_step :
    (p a b c d : ℕ)
    → bit_xor (a * p + c / 2) (b * p + d / 2) ≡ bit_xor a b * p + bit_xor (c / 2) (d / 2)
    → bit_xor (a * (p * 2) + c) (b * (p * 2) + d) ≡ bit_xor a b * (p * 2) + bit_xor c d
split_step p a b c d h =
    let ea : (a * (p * 2) + c) / 2 ≡ a * p + c / 2 = omega arith in
    let eb : (b * (p * 2) + d) / 2 ≡ b * p + d / 2 = omega arith in
    let low : bit_xor (a * (p * 2) + c) (b * (p * 2) + d) % 2 ≡ bit_xor c d % 2 =
      rw (bit_xor-mod_two, bit_xor-mod_two) (omega arith) in
    let high : bit_xor (a * (p * 2) + c) (b * (p * 2) + d) / 2 ≡ bit_xor a b * p + bit_xor c d / 2 =
      rw (bit_xor-div_two, ea, eb, bit_xor-div_two) h in
    omega arith

-- The high and the low parts of the operands go separate ways.
pub bit_xor-split :
    (k a b c d : ℕ)
    → c < 2 ^ k
    → d < 2 ^ k
    → bit_xor (a * 2 ^ k + c) (b * 2 ^ k + d) ≡ bit_xor a b * 2 ^ k + bit_xor c d
bit_xor-split zero a b c d h l =
    let e : c ≡ 0 = omega arith in
    let e' : d ≡ 0 = omega arith in
    let ea : a * 2 ^ 0 + 0 ≡ a = omega arith in
    let eb : b * 2 ^ 0 + 0 ≡ b = omega arith in rw (e, e', ea, eb) (omega (arith, zero-bit_xor 0))
bit_xor-split (suc k) a b c d h l =
    let p : 2 ^ suc k ≡ 2 ^ k * 2 = pow-suc 2 k in
    rw p (
      split_step (2 ^ k) a b c d
        (bit_xor-split k a b (c / 2) (d / 2) (omega (arith, p)) (omega (arith, p))))

pub bit_xor-lt : (k a b : ℕ) → a < 2 ^ k → b < 2 ^ k → bit_xor a b < 2 ^ k
bit_xor-lt zero a b h l =
    let e : a ≡ 0 = omega arith in
    let e' : b ≡ 0 = omega arith in rw (e, e') (omega (arith, zero-bit_xor 0))
bit_xor-lt (suc k) a b h l =
    let p : 2 ^ suc k ≡ 2 ^ k * 2 = pow-suc 2 k in
    omega (
      arith,
      p,
      bit_xor_step a b,
      bit_xor-lt k (a / 2) (b / 2) (omega (arith, p)) (omega (arith, p)),
    )
