-- ===== src/Gfx/Colors/Dimming.antt =====
-- The dimmer's curve of gfx_lib.c between the points of its table.
use native.Mathlib.Nat.{mul-le-mul}
use chromatron.Base.{
  ℕ, ◌+◌, ◌-◌, ◌*◌, ◌/◌, ◌%◌, ◌^◌, ◌≤◌, ◌<◌, ◌≡◌, refl, sym, ap, ◌∙◌, ltb, if◌then◌else◌, arith,
  true, false, dec_lt, Option, some, some-injective, List, get_elem?,
}
use chromatron.Util.{linear_interp}
use chromatron.Util.Interpolation.{linear_interp_lem}
use chromatron.Gfx.Types.{Gfx}
use chromatron.Gfx.Colors.{linterp_table_lookup, get_dimmed_val}

-- The point after the one of index `i`, whose line ends at `point_end i`.
abbrev pub next_point : List ℕ → ℕ → Option ℕ
next_point table i = if ltb i 255 then get_elem? table (i + 1) else some 65535

abbrev pub point_end : ℕ → ℕ
point_end i = if ltb i 255 then (i + 1) * 256 else 65535

lookup_lem :
    (x y0 y1 : ℕ) (table : List ℕ)
    → x < 2 ^ 16
    → get_elem? table (x / 256) ≡ some y0
    → next_point table (x / 256) ≡ some y1
    → linterp_table_lookup x table
      ≡ some (linear_interp x (x / 256 * 256) y0 (point_end (x / 256)) y1)
unfolding linterp_table_lookup
lookup_lem x y0 y1 table lt here next =
    let whole : x / 256 % 2 ^ 8 ≡ x / 256 = omega arith in
    elim (dec_lt (x / 256) 255) [
      | yes inner ↦
          let b : ltb (x / 256) 255 ≡ true = ground arith in
          let after : get_elem? table (x / 256 + 1) ≡ some y1 =
            sym (ap (λ c. if c then get_elem? table (x / 256 + 1) else some 65535) b) ∙ next in
          rw (whole, here, b, after) refl
      | no last ↦
          let b : ltb (x / 256) 255 ≡ false = ground arith in
          let top : some 65535 ≡ some y1 =
            sym (ap (λ c. if c then get_elem? table (x / 256 + 1) else some 65535) b) ∙ next in
          rw (whole, here, b)
            (ap (λ o. some (linear_interp x (x / 256 * 256) y0 65535 o)) (some-injective _ _ top))
    ]

-- The dimmed value lies on the line between the two points of the table around the product of the value and the dimmer, where
-- they rise: it is not below the first and not above the second.
pub get_dimmed_val-Between :
    (v y0 y1 : ℕ) (g : Gfx)
    → let x : ℕ = v * g.dimmer.level / 65536 in
      v < 2 ^ 16
      → g.dimmer.level < 2 ^ 16
      → get_elem? g.dimmer_lookup (x / 256) ≡ some y0
      → next_point g.dimmer_lookup (x / 256) ≡ some y1
      → y0 ≤ y1
      → y1 < 2 ^ 16
      → (y : ℕ) × (get_dimmed_val v g ≡ some y)
        × (y ≡ y0 + (x - x / 256 * 256) * (y1 - y0) / (point_end (x / 256) - x / 256 * 256))
        × (y0 ≤ y)
        × (y ≤ y1)
unfolding get_dimmed_val
get_dimmed_val-Between v y0 y1 g hv hl here next up top =
    let product : v * g.dimmer.level ≤ 65535 * 65535 =
      mul-le-mul {n₂ = 65535} {m₂ = 65535} (omega arith) (omega arith) in
    let x : ℕ = v * g.dimmer.level / 65536 in
    let small : x < 2 ^ 16 = omega (arith, product) in
    let whole : v * g.dimmer.level % 2 ^ 32 ≡ v * g.dimmer.level = omega (arith, product) in
    let end : (x < point_end (x / 256) + 1)
        × (x / 256 * 256 < point_end (x / 256))
        × (point_end (x / 256) < 2 ^ 16) =
      ground (arith, small) in
    let line =
      linear_interp_lem x (x / 256 * 256) y0 (point_end (x / 256)) y1 (omega arith)
        (omega (arith, end.0)) end.1 end.2 up top in
    (
      linear_interp x (x / 256 * 256) y0 (point_end (x / 256)) y1,
      rw whole (lookup_lem x y0 y1 g.dimmer_lookup small here next),
      line.0,
      omega (arith, line.0),
      line.1,
    )
