-- ===== src/Random/Seeds.antt =====
-- rnd_u64_get_seed against rnd_v_seed, and rnd_v_fill.
use chromatron.Base.{ℕ, zero, suc, ◌≡◌, refl, length, All, arith}
use chromatron.Base.Bytes.Laws.{IsByte}
use chromatron.Random.{Lfsr, rand31_32, seed, get_seed, u8_get_int, fill}
use chromatron.Random.Registers.{IsLive, rand31_32-IsLive}

-- Live registers are seeded again by the seed that was made of them.
pub seed-get_seed : (r : Lfsr) → IsLive r → seed (get_seed r) ≡ r
unfolding seed get_seed
seed-get_seed r live = ground (arith, live.live31, live.live32, live.size32)

-- From live registers, rnd_v_fill writes `len` bytes and leaves live registers.
pub fill-IsLive :
    (len : ℕ) (r : Lfsr)
    → IsLive r
    → (length (fill len r).0 ≡ len) × All IsByte (fill len r).0 × IsLive (fill len r).1
unfolding fill u8_get_int
fill-IsLive zero r live = (refl, tt, live)
fill-IsLive (suc len) r live =
    let rest = fill-IsLive len (rand31_32 r).1 (rand31_32-IsLive live) in
    (omega (arith, rest.0), (omega arith, rest.1), rest.2)
