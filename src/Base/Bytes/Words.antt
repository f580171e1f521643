-- ===== src/Base/Bytes/Words.antt =====
-- One 32-bit word in a byte buffer.
use Prim.Native.Nat.{ℕ, ◌+◌, ◌*◌, ◌^◌, ◌<◌, ◌≤◌}
use mathlib.Core.Path.{◌≡◌, refl, ◌∙◌}
use mathlib.Core.Logic.{◌⊎◌}
use mathlib.Core.Option.{some}
use mathlib.Core.List.{List}
use native.Mathlib.Omega.{arith}
use chromatron.Base.Lists.{
  length, get_elem?, set, length-set, get_elem?-set_self, get_elem?-set_ne, get_elem?-eq-get_or,
  get_or,
}
use chromatron.Base.Bytes.{byte, read32, write32}

-- the four writes of `write32`
abbrev pub put4 : List ℕ → ℕ → ℕ → List ℕ
put4 bs i w =
    set (set (set (set bs i (byte w 0)) (i + 1) (byte w 1)) (i + 2) (byte w 2)) (i + 3) (byte w 3)

length-put4 : (bs : List ℕ) (i w : ℕ) → length (put4 bs i w) ≡ length bs
length-put4 bs i w = rw (length-set, length-set, length-set, length-set) refl

put4_ne :
    (bs : List ℕ) (i w j : ℕ) → (j < i) ⊎ (i + 4 ≤ j) → get_elem? (put4 bs i w) j ≡ get_elem? bs j
put4_ne bs i w j h =
    get_elem?-set_ne _ (i + 3) j _ (omega arith)
    ∙ get_elem?-set_ne _ (i + 2) j _ (omega arith)
    ∙ get_elem?-set_ne _ (i + 1) j _ (omega arith)
    ∙ get_elem?-set_ne _ i j _ (omega arith)

module _ (bs : List ℕ) (i w : ℕ) (inside : i + 3 < length bs) where
  pub write32_total : write32 bs i w ≡ some (put4 bs i w)
  unfolding write32
  write32_total = ground arith

  pub read32-write32_self : w < 2 ^ 32 → read32 (put4 bs i w) i ≡ some w
  unfolding read32
  read32-write32_self h = ground (arith, b0, b1, b2, b3)
    where
      b3 : get_elem? (put4 bs i w) (i + 3) ≡ some (byte w 3)
      b3 = get_elem?-set_self _ (i + 3) _ (omega (arith, length-set {0}))

      b2 : get_elem? (put4 bs i w) (i + 2) ≡ some (byte w 2)
      b2 =
          get_elem?-set_ne _ (i + 3) (i + 2) _ (omega arith)
          ∙ get_elem?-set_self _ (i + 2) _ (omega (arith, length-set {0}))

      b1 : get_elem? (put4 bs i w) (i + 1) ≡ some (byte w 1)
      b1 =
          get_elem?-set_ne _ (i + 3) (i + 1) _ (omega arith)
          ∙ get_elem?-set_ne _ (i + 2) (i + 1) _ (omega arith)
          ∙ get_elem?-set_self _ (i + 1) _ (omega (arith, length-set {0}))

      b0 : get_elem? (put4 bs i w) i ≡ some (byte w 0)
      b0 =
          get_elem?-set_ne _ (i + 3) i _ (omega arith)
          ∙ get_elem?-set_ne _ (i + 2) i _ (omega arith)
          ∙ get_elem?-set_ne _ (i + 1) i _ (omega arith)
          ∙ get_elem?-set_self _ i _ (omega arith)

pub read32-write32_ne :
    (bs : List ℕ) (i w j : ℕ) → (j + 4 ≤ i) ⊎ (i + 4 ≤ j) → read32 (put4 bs i w) j ≡ read32 bs j
unfolding read32
read32-write32_ne bs i w j h =
    rw
      (
        put4_ne bs i w j (omega arith),
        put4_ne bs i w (j + 1) (omega arith),
        put4_ne bs i w (j + 2) (omega arith),
        put4_ne bs i w (j + 3) (omega arith),
      )
      refl

pub read32_total : (bs : List ℕ) (i : ℕ) → i + 3 < length bs → (v : ℕ) × (read32 bs i ≡ some v)
unfolding read32
read32_total bs i h = (
  get_or bs i 0
      + get_or bs (i + 1) 0 * 2 ^ 8
      + get_or bs (i + 2) 0 * 2 ^ 16
      + get_or bs (i + 3) 0 * 2 ^ 24,
  rw
      (
        get_elem?-eq-get_or bs i 0 (omega arith),
        get_elem?-eq-get_or bs (i + 1) 0 (omega arith),
        get_elem?-eq-get_or bs (i + 2) 0 (omega arith),
        get_elem?-eq-get_or bs (i + 3) 0 (omega arith),
      )
      refl,
)
