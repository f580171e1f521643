-- ===== src/Hash.antt =====
-- src/sapphireos/hash.c: the 32-bit FNV-1a hash of names, keys and data.
pub mod Collisions
mod Tests
use Prim.Native.Nat.{zero, suc, bit_xor}
use chromatron.Base.{ℕ, ◌*◌, ◌%◌, ◌^◌, List, [], ◌∷◌, ◌==◌, if◌then◌else◌, length}

-- FNV_32BIT_OFFSET_BASIS and FNV_32BIT_PRIME
abbrev pub offset_basis : ℕ
offset_basis = 0x811c9dc5

abbrev pub prime : ℕ
prime = 16777619

-- one round of the loop
unfoldable pub mix : ℕ → ℕ → ℕ
mix hash byte = bit_xor hash byte * prime % 2 ^ 32

unfoldable pub fnv1a : ℕ → List ℕ → ℕ
fnv1a hash [] = hash
fnv1a hash (byte ∷ data') = fnv1a (mix hash byte) data'

unfoldable pub hash_u32_data : List ℕ → ℕ
hash_u32_data bytes = if length bytes == 0 then 0 else fnv1a offset_basis bytes

-- the bytes in front of the first 0, at most `n`
unfoldable pub strn : ℕ → List ℕ → List ℕ
strn zero src = []
strn (suc n) [] = []
strn (suc n) (c ∷ src) = if c == 0 then [] else c ∷ strn n src

unfoldable pub hash_u32_string : List ℕ → ℕ
hash_u32_string src = hash_u32_data (strn 255 src)

abbrev pub hash_u32_start : ℕ
hash_u32_start = offset_basis

unfoldable pub hash_u32_partial : ℕ → List ℕ → ℕ
hash_u32_partial hash bytes = fnv1a hash bytes
