-- ===== src/Vm/Image/Table.antt =====
-- The data section of an image, as a run reads it and writes it back.
use chromatron.Base.{
  ℕ, ◌+◌, ◌-◌, ◌*◌, ◌≤◌, ◌≡◌, refl, some, List, ◌++◌, take, drop, length, length-append, All, arith,
  dec_le,
}
use chromatron.Base.Bytes.{bytes}
use chromatron.Base.Bytes.Laws.{
  IsByte, length-bytes, bytes-IsByte, words_total, length-take, length-drop, take-drop-take,
  All-append, All-take, All-drop,
}
use chromatron.Word.{IsWord}
use chromatron.Vm.Image.{VmState, code_section, data_section, put_data}

-- The data section lies in the stream.
abbrev pub Fits : List ℕ → VmState → Type 0
Fits stream st = st.data_start + 4 * st.data_count ≤ length stream

module _ (stream : List ℕ) (st : VmState) (fits : Fits stream st) where
  pub length-put_data :
      (table : List ℕ)
      → length table ≡ st.data_count
      → length (put_data stream st table) ≡ length stream
  unfolding put_data
  length-put_data table n = omega (
    arith,
    length-append (take st.data_start stream)
        (bytes table ++ drop (st.data_start + 4 * st.data_count) stream),
    length-append (bytes table) (drop (st.data_start + 4 * st.data_count) stream),
    length-bytes table,
    length-take st.data_start stream,
    length-drop (st.data_start + 4 * st.data_count) stream,
  )

  pub code_section-put_data :
      (table : List ℕ) → code_section (put_data stream st table) st ≡ code_section stream st
  unfolding put_data code_section
  code_section-put_data table = elim (dec_le st.code_start st.data_start) [
    | yes before ↦
        take-drop-take st.code_start st.data_start (st.data_start - st.code_start) stream _
          (omega arith) (omega arith)
    | no behind ↦ let e : st.data_start - st.code_start ≡ 0 = omega arith in rw e refl
  ]

  pub put_data-IsByte : (table : List ℕ) → All IsByte stream → All IsByte (put_data stream st table)
  unfolding put_data
  put_data-IsByte table b =
      All-append IsByte _ _ (All-take IsByte _ stream b)
        (All-append IsByte _ _ (bytes-IsByte table) (All-drop IsByte _ stream b))

  pub data_section_total :
      All IsByte stream
      → (table : List ℕ) × (data_section stream st ≡ some table)
        × (length table ≡ st.data_count)
        × All IsWord table
  unfolding data_section
  data_section_total b =
      words_total st.data_count (drop st.data_start stream)
        (omega (arith, length-drop st.data_start stream)) (All-drop IsByte st.data_start stream b)
