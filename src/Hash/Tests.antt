-- ===== src/Hash/Tests.antt =====
-- Tests of the hash, and its theorem at concrete data.
use chromatron.Base.{ℕ, ◌≡◌, refl, [], ◌∷◌, ◌++◌, arith}
use chromatron.Hash.{
  mix, fnv1a, hash_u32_data, strn, hash_u32_string, hash_u32_start, hash_u32_partial,
}
use chromatron.Hash.Collisions.{hash_u32_data-Separates}

-- "a" and "foobar", with the values that FNV-1a is published with
published :
    (hash_u32_string (97 ∷ 0 ∷ 5 ∷ []) ≡ 0xe40c292c)
    × (hash_u32_string (102 ∷ 111 ∷ 111 ∷ 98 ∷ 97 ∷ 114 ∷ 0 ∷ []) ≡ 0xbf9cf968)
unfolding hash_u32_string strn hash_u32_data fnv1a mix
published = (refl, refl)

abbrev one : ℕ
one = 1

abbrev two : ℕ
two = 2

hash_u32_data-Separates_example :
    (hash_u32_data ((7 ∷ 8 ∷ []) ++ (1 ∷ 9 ∷ []))
      ≡ hash_u32_partial (hash_u32_partial hash_u32_start (7 ∷ 8 ∷ [])) (1 ∷ 9 ∷ []))
    × (hash_u32_data ((7 ∷ 8 ∷ []) ++ (1 ∷ 9 ∷ [])) ≡ hash_u32_data ((7 ∷ 8 ∷ []) ++ (2 ∷ 9 ∷ []))
        → one ≡ two)
hash_u32_data-Separates_example =
    hash_u32_data-Separates (7 ∷ 8 ∷ []) (9 ∷ []) 1 2 (omega arith, tt) (omega arith) (omega arith)
