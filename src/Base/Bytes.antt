-- ===== src/Base/Bytes.antt =====
-- Byte buffers: little-endian reads and writes of 16 and 32 bits, and tables of 32-bit words. `none`
-- is an access outside the buffer.
pub mod Laws
pub mod Words
use Prim.Native.Nat.{ℕ, zero, suc, ◌+◌, ◌*◌, ◌/◌, ◌%◌, ◌^◌}
use mathlib.Core.Path.{◌≡◌, refl}
use mathlib.Core.Option.{Option, none, some}
use mathlib.Core.List.{List, [], ◌∷◌, ◌++◌}
use chromatron.Base.Tests.{ltb, if◌then◌else◌}
use chromatron.Base.Lists.{get_elem?, set, length}

infixl 5 ◌>>=◌
abbrev pub ◌>>=◌ {ℓ κ} : {A : Type ℓ} {B : Type κ} → Option A → (A → Option B) → Option B
none >>= f = none
some a >>= f = f a

pub >>=-eq-some {ℓ κ} :
    {A : Type ℓ} {B : Type κ} (m : Option A) (f : A → Option B) {b : B}
    → (m >>= f) ≡ some b
    → (a : A) × (m ≡ some a) × (f a ≡ some b)
>>=-eq-some none f h = cc
>>=-eq-some (some a) f h = (a, refl, h)

abbrev pub read16 : List ℕ → ℕ → Option ℕ
read16 bs i = do b0 ← get_elem? bs i; b1 ← get_elem? bs (i + 1); some (b0 + b1 * 2 ^ 8)

unfoldable pub read32 : List ℕ → ℕ → Option ℕ
read32 bs i = do
  b0 ← get_elem? bs i
  b1 ← get_elem? bs (i + 1)
  b2 ← get_elem? bs (i + 2)
  b3 ← get_elem? bs (i + 3)
  some (b0 + b1 * 2 ^ 8 + b2 * 2 ^ 16 + b3 * 2 ^ 24)

abbrev pub byte : ℕ → ℕ → ℕ
byte w k = w / 2 ^ (8 * k) % 2 ^ 8

unfoldable pub write32 : List ℕ → ℕ → ℕ → Option (List ℕ)
write32 bs i w =
    if ltb (i + 3) (length bs)
    then some (
        set (set (set (set bs i (byte w 0)) (i + 1) (byte w 1)) (i + 2) (byte w 2)) (i + 3)
          (byte w 3))
    else none

-- `n` words from the start of the buffer
unfoldable pub words : ℕ → List ℕ → Option (List ℕ)
words zero bs = some []
words (suc n) (b0 ∷ b1 ∷ b2 ∷ b3 ∷ bs) = do
  ws ← words n bs
  some ((b0 + b1 * 2 ^ 8 + b2 * 2 ^ 16 + b3 * 2 ^ 24) ∷ ws)
words (suc n) _ = none

unfoldable pub bytes : List ℕ → List ℕ
bytes [] = []
bytes (w ∷ ws) = byte w 0 ∷ byte w 1 ∷ byte w 2 ∷ byte w 3 ∷ bytes ws
