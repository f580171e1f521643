-- ===== src/Hash/Collisions.antt =====
-- The hash of src/sapphireos/hash.c in parts, and its collisions.
use Prim.Native.Nat.{bit_xor}
use chromatron.Base.Bits.{eq_of_bit_xor, bit_xor-cancel, bit_xor-lt}
use chromatron.Base.{
  ℕ, ◌*◌, ◌%◌, ◌^◌, ◌<◌, ◌≡◌, refl, sym, ap, ◌∙◌, List, [], ◌∷◌, ◌++◌, All, length, ◌==◌, false,
  arith,
}
use chromatron.Hash.{
  offset_basis, prime, mix, fnv1a, hash_u32_data, hash_u32_start, hash_u32_partial,
}

fnv1a-append : (h : ℕ) (xs ys : List ℕ) → fnv1a h (xs ++ ys) ≡ fnv1a (fnv1a h xs) ys
unfolding fnv1a
fnv1a-append h [] ys = refl
fnv1a-append h (x ∷ xs) ys = fnv1a-append (mix h x) xs ys

-- The exclusive or undone, on either side.
byte_back : (a b : ℕ) → bit_xor (bit_xor a b) a ≡ b
byte_back a b = eq_of_bit_xor (bit_xor (bit_xor a b) a) b (bit_xor-cancel a b)

hash_back : (a b : ℕ) → bit_xor b (bit_xor a b) ≡ a
hash_back a b =
    let x : ℕ = bit_xor a b in ap (λ k. bit_xor k x) (sym (byte_back a b)) ∙ byte_back x a

-- The product with the prime can be undone: 899433627 is its inverse modulo 2 ^ 32.
product_back : (x : ℕ) → x < 2 ^ 32 → x * prime % 2 ^ 32 * 899433627 % 2 ^ 32 ≡ x
product_back x h = omega arith

mix_lem : (h d : ℕ) → h < 2 ^ 32 → d < 2 ^ 8 → mix h d * 899433627 % 2 ^ 32 ≡ bit_xor h d
unfolding mix
mix_lem h d hh hd = product_back (bit_xor h d) (bit_xor-lt 32 h d hh (omega arith))

mix-lt : (h d : ℕ) → mix h d < 2 ^ 32
unfolding mix
mix-lt h d = omega arith

mix_hash : (h h' d : ℕ) → h < 2 ^ 32 → h' < 2 ^ 32 → d < 2 ^ 8 → mix h d ≡ mix h' d → h ≡ h'
mix_hash h h' d l l' ld e =
    let same : bit_xor h d ≡ bit_xor h' d =
      sym (mix_lem h d l ld) ∙ ap (λ k. k * 899433627 % 2 ^ 32) e ∙ mix_lem h' d l' ld in
    sym (hash_back h d) ∙ ap (bit_xor d) same ∙ hash_back h' d

mix_byte : (h d d' : ℕ) → h < 2 ^ 32 → d < 2 ^ 8 → d' < 2 ^ 8 → mix h d ≡ mix h d' → d ≡ d'
mix_byte h d d' l ld ld' e =
    let same : bit_xor h d ≡ bit_xor h d' =
      sym (mix_lem h d l ld) ∙ ap (λ k. k * 899433627 % 2 ^ 32) e ∙ mix_lem h d' l ld' in
    sym (byte_back h d) ∙ ap (λ k. bit_xor k h) same ∙ byte_back h d'

abbrev pub IsByte : ℕ → Type 0
IsByte d = d < 2 ^ 8

fnv1a-lt : (h : ℕ) (xs : List ℕ) → h < 2 ^ 32 → fnv1a h xs < 2 ^ 32
unfolding fnv1a
fnv1a-lt h [] l = l
fnv1a-lt h (x ∷ xs) l = fnv1a-lt (mix h x) xs (mix-lt h x)

fnv1a_hash :
    (h h' : ℕ) (xs : List ℕ)
    → h < 2 ^ 32
    → h' < 2 ^ 32
    → All IsByte xs
    → fnv1a h xs ≡ fnv1a h' xs
    → h ≡ h'
unfolding fnv1a
fnv1a_hash h h' [] l l' b e = e
fnv1a_hash h h' (x ∷ xs) l l' b e =
    mix_hash h h' x l l' b.0 (fnv1a_hash (mix h x) (mix h' x) xs (mix-lt h x) (mix-lt h' x) b.1 e)

nonempty : (xs ys : List ℕ) (x : ℕ) → (length (xs ++ (x ∷ ys)) == 0) ≡ false
nonempty [] ys x = ground arith
nonempty (z ∷ xs) ys x = ground arith

-- The hash of data is the one made of its parts, and data that differ in one byte do not have the same hash.
pub hash_u32_data-Separates :
    (xs ys : List ℕ) (d d' : ℕ)
    → All IsByte ys
    → d < 2 ^ 8
    → d' < 2 ^ 8
    → (hash_u32_data (xs ++ (d ∷ ys))
        ≡ hash_u32_partial (hash_u32_partial hash_u32_start xs) (d ∷ ys))
      × (hash_u32_data (xs ++ (d ∷ ys)) ≡ hash_u32_data (xs ++ (d' ∷ ys)) → d ≡ d')
unfolding hash_u32_data hash_u32_partial fnv1a
hash_u32_data-Separates xs ys d d' b l l' =
    let start : ℕ = fnv1a offset_basis xs in
    let whole : (k : ℕ) → hash_u32_data (xs ++ (k ∷ ys)) ≡ fnv1a start (k ∷ ys) =
      λ k. rw (nonempty xs ys k) (fnv1a-append offset_basis xs (k ∷ ys)) in
    (
      whole d,
      λ e. mix_byte start d d' (fnv1a-lt offset_basis xs (omega arith)) l l' (
          fnv1a_hash (mix start d) (mix start d') ys (mix-lt start d) (mix-lt start d') b
            (sym (whole d) ∙ e ∙ whole d')),
    )
