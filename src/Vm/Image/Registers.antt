-- ===== src/Vm/Image/Registers.antt =====
-- The access to single cells from outside a run: vm_i32_get_data, vm_v_set_data, vm_v_get_data_multi.
use Prim.Native.Nat.{zero, suc}
use chromatron.Base.{
  ℕ, ◌+◌, ◌-◌, ◌*◌, ◌%◌, ◌^◌, ◌<◌, ◌≤◌, ◌≡◌, refl, ◌∙◌, ◌&&◌, Option, some, List, [], ◌∷◌, ltb, leb,
  ◌==◌, if◌then◌else◌, length, get_elem?, arith, subst, some-injective, Bool-cases, inl, inr,
}
use chromatron.Base.Bytes.{◌>>=◌, >>=-eq-some, read32}
use chromatron.Base.Bytes.Words.{put4, write32_total, read32-write32_self, read32-write32_ne}
use chromatron.Word.{IsWord}
use chromatron.Vm.Image.{VmState, get_data, set_data, copy_data, get_data_multi}
use chromatron.Vm.Image.Table.{Fits}

module _ (stream : List ℕ) (st : VmState) (fits : Fits stream st) where
  -- vm_v_set_data never leaves the stream. Afterwards vm_i32_get_data reads the value at the address
  -- that was set, if that is a cell, and what it read before at every other address.
  pub get_data-set_data :
      (addr v j : ℕ)
      → IsWord v
      → (new : List ℕ) × (set_data stream st addr v ≡ some new)
        × (get_data new st j
            ≡ (if (j == addr) && ltb addr st.data_count then some v else get_data stream st j))
  unfolding set_data get_data
  get_data-set_data addr v j h = elim (Bool-cases (leb st.data_count addr)) [
    | inl out ↦ (stream, rw out refl, ground arith)
    | inr cell ↦
        let i : ℕ = st.data_start + 4 * addr in
        let inside : i + 3 < length stream = ground arith in
        (
          put4 stream i v,
          rw cell (write32_total stream i v inside),
          ground (
            arith,
            read32-write32_self stream i v inside h,
            read32-write32_ne stream i v (st.data_start + 4 * j),
          ),
        )
  ]

-- The cells from `addr` on, each as vm_i32_get_data reads it.
pub cells : List ℕ → VmState → ℕ → ℕ → Option (List ℕ)
cells stream st addr zero = some []
cells stream st addr (suc len) = do
  v ← get_data stream st addr
  vs ← cells stream st (addr + 1) len
  some (v ∷ vs)

module _ (stream : List ℕ) (st : VmState) where
  read-get_data :
      (addr : ℕ)
      → addr < st.data_count
      → read32 stream (st.data_start + 4 * addr) ≡ get_data stream st addr
  unfolding get_data
  read-get_data addr h = ground arith

  copy_data-cells :
      (addr len : ℕ)
      → addr + len ≤ st.data_count
      → addr + len ≤ 2 ^ 8
      → copy_data stream st addr len ≡ cells stream st addr len
  unfolding copy_data cells
  copy_data-cells addr zero h b = refl
  copy_data-cells addr (suc zero) h b = rw (read-get_data addr (omega arith)) refl
  copy_data-cells addr (suc (suc len)) h b =
      let next : (addr + 1) % 2 ^ 8 ≡ addr + 1 = omega arith in
      rw
        (
          read-get_data addr (omega arith),
          next,
          copy_data-cells (addr + 1) (suc len) (omega arith) (omega arith),
        )
        refl

  -- A range of cells below address 256 is read as vm_i32_get_data reads each of them.
  pub get_data_multi-cells :
      (addr len : ℕ)
      → addr + len ≤ st.data_count
      → addr + len ≤ 2 ^ 8
      → get_data_multi stream st addr len ≡ cells stream st addr len
  unfolding get_data_multi
  get_data_multi-cells addr len h b = ground (arith, copy_data-cells addr len)

  -- `get_elem?` on what a loop copied is the cell at the wrapped address.
  copy_data_at :
      (addr len i : ℕ) {vs : List ℕ}
      → addr < 2 ^ 8
      → i < len
      → copy_data stream st addr len ≡ some vs
      → get_elem? vs i ≡ read32 stream (st.data_start + 4 * ((addr + i) % 2 ^ 8))
  unfolding copy_data
  copy_data_at addr zero i b h e = absurd (omega arith)
  copy_data_at addr (suc len) i {vs} b h e =
      let (v, read, e') = >>=-eq-some (read32 stream (st.data_start + 4 * addr)) _ e in
      let (ws, rest, last) = >>=-eq-some (copy_data stream st ((addr + 1) % 2 ^ 8) len) _ e' in
      subst (λ xs. get_elem? xs i ≡ read32 stream (st.data_start + 4 * ((addr + i) % 2 ^ 8)))
        (some-injective _ _ last)
        (at_index v ws read (λ j lt. copy_data_at ((addr + 1) % 2 ^ 8) len j (omega arith) lt rest)
          i h)
    where
      at_index :
          (v : ℕ) (ws : List ℕ)
          → read32 stream (st.data_start + 4 * addr) ≡ some v
          → ((j : ℕ)
              → j < len
              → get_elem? ws j
                ≡ read32 stream (st.data_start + 4 * (((addr + 1) % 2 ^ 8 + j) % 2 ^ 8)))
          → (i : ℕ) → i < suc len
          → get_elem? (v ∷ ws) i ≡ read32 stream (st.data_start + 4 * ((addr + i) % 2 ^ 8))
      at_index v ws read ih zero h =
          let e : (addr + 0) % 2 ^ 8 ≡ addr = omega arith in rw (e, read) refl
      at_index v ws read ih (suc i) h =
          let e : (addr + suc i) % 2 ^ 8 ≡ ((addr + 1) % 2 ^ 8 + i) % 2 ^ 8 = omega arith in
          rw e (ih i (omega arith))

  -- Past address 255 the loop goes round: a range inside the data that reaches beyond holds the cells
  -- from address 0 on again.
  pub get_data_multi_wraps :
      (addr len i : ℕ) {vs : List ℕ}
      → addr < 2 ^ 8
      → addr + len ≤ st.data_count
      → 2 ^ 8 - addr ≤ i
      → i < len
      → i < 2 ^ 8
      → get_data_multi stream st addr len ≡ some vs
      → get_elem? vs i ≡ get_data stream st (addr + i - 2 ^ 8)
  unfolding get_data_multi
  get_data_multi_wraps addr len i {vs} b h past lt small e =
      let wrapped : (addr + i) % 2 ^ 8 ≡ addr + i - 2 ^ 8 = omega arith in
      let copied : copy_data stream st addr len ≡ some vs = ground (arith, e) in
      copy_data_at addr len i b lt copied
      ∙ rw wrapped (read-get_data (addr + i - 2 ^ 8) (omega arith))
