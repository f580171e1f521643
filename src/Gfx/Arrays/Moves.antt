-- ===== src/Gfx/Arrays/Moves.antt =====
-- gfx_v_array_move of gfx_lib.c: the values of an array's pixels after it.
use Prim.Native.Nat.{zero, suc}
use chromatron.Base.{ℕ, ◌+◌, ◌≡◌, some, get_elem?}
use chromatron.Vm.Types.{Attr}
use chromatron.Vm.Opcodes.{pixel_value}
use chromatron.Gfx.Types.{Pixel, PixelArray, Gfx}
use chromatron.Gfx.Setters.{set_1d, read_attr}
use chromatron.Gfx.Arrays.Loops.{pixel_of}

-- The pixel has the value.
abbrev pub Shows : Attr → ℕ → ℕ → Gfx → Type 0
Shows attr v k g = (p : Pixel) × (get_elem? g.pixels k ≡ some p) × (read_attr attr p ≡ v)

module _ (attr : Attr) (src : ℕ) (a : PixelArray) where
  abbrev value : ℕ
  value = pixel_value attr src

  abbrev moved : ℕ → Gfx → Gfx
  moved i g = set_1d attr value (pixel_of a i g.settings.pix_count) g

  -- The loop as a function.
  abbrev moves : ℕ → ℕ → Gfx → Gfx
  moves zero i g = g
  moves (suc n) i g = moves n (i + 1) (moved i g)
