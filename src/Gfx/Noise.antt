-- ===== src/Gfx/Noise.antt =====
-- The value noise of src/lib_chromatron/gfx_lib.c, and the functions that a program calls by hash.
pub mod Blend
use chromatron.Base.{
  ℕ, ◌+◌, ◌-◌, ◌*◌, ◌/◌, ◌%◌, ◌^◌, Option, none, some, List, ◌==◌, if◌then◌else◌, get_elem?,
}
use chromatron.Base.Bytes.{◌>>=◌}
use chromatron.Word.{add32, smod, to_u16}
use chromatron.Gfx.Types.{Gfx}

unfoldable pub lerp : ℕ → ℕ → ℕ → ℕ
lerp low high t = (low * (256 - t) + high * t) % 2 ^ 16

-- `smootherstep` is the table of smootherstep.csv. `none` is a read past the end of a table.
module _ (smootherstep : List ℕ) where
  unfoldable pub noise : ℕ → Gfx → Option ℕ
  noise x g = do
    let x_min : ℕ = x / 256 % 2 ^ 8
    t ← get_elem? smootherstep (x % 256)
    low ← get_elem? g.noise_table x_min
    high ← get_elem? g.noise_table (x_min + 1)
    some (lerp low high t)

  -- gfx_i32_lib_call, with the hashes of the two names
  unfoldable pub lib_call : ℕ → ℕ → ℕ → List ℕ → Gfx → Option ℕ
  lib_call test_lib_call noise_hash func_hash params g =
      if func_hash == test_lib_call
      then (do a ← get_elem? params 0; b ← get_elem? params 1; some (add32 a b))
      else if func_hash == noise_hash
      then (do a ← get_elem? params 0; noise (to_u16 (smod a 65536)) g)
      else some 0
