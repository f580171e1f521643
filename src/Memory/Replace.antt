-- ===== src/Memory/Replace.antt =====
-- One block in the place of another of the same length, under the same handle or a new one.
use chromatron.Base.{
  ℕ, ◌+◌, ◌<◌, ◌≡◌, ◌≢◌, refl, sym, ◌∙◌, false, none, some, List, [], ◌∷◌, length, All, arith,
  Bool-cases, inl, inr, subst, ◌⊎◌,
}
use chromatron.Memory.{Block, block_size, extent, canary_value}
use chromatron.Memory.Blocks.{owns, locate, find, alter, IsDistinct}
use chromatron.Memory.Sound.{clean_extent, dirty_extent, clean_data, clean_count}

pub alter-constant :
    (i : ℕ) (f : Block → Block) {b : Block} (bs : List Block)
    → find i bs ≡ some b
    → alter i f bs ≡ alter i (λ c. f b) bs
unfolding find alter
alter-constant i f [] e = refl
alter-constant i f {b} (c ∷ bs) e = elim (Bool-cases (owns i c)) [
  | inl own ↦ let same : c ≡ b = ground arith in ground arith
  | inr other ↦ ground (arith, alter-constant i f {b = b} bs)
]

module _ (i j : ℕ) (b c : Block) (clean : c.dirty ≡ false) (named : c.handle ≡ j)
    (long : length c.payload ≡ length b.payload) where
  pub find-replace_self :
      (bs : List Block)
      → find i bs ≡ some b
      → ((j ≡ i) ⊎ (find j bs ≡ none))
      → find j (alter i (λ d. c) bs) ≡ some c
  unfolding find alter
  find-replace_self [] e apart = absurd (ground arith)
  find-replace_self (d ∷ bs) e apart = elim (Bool-cases (owns i d)) [
    | inl own ↦ ground arith
    | inr other ↦ elim apart [
      | inl same ↦ ground (arith, find-replace_self bs (ground arith) (inl same))
      | inr new ↦ ground (arith, find-replace_self bs (ground arith) (inr (ground arith)))
    ]
  ]

  pub find-replace_other :
      (k : ℕ) (bs : List Block) → i ≢ k → j ≢ k → find k (alter i (λ d. c) bs) ≡ find k bs
  unfolding find alter
  find-replace_other k [] ni nj = refl
  find-replace_other k (d ∷ bs) ni nj = ground (arith, find-replace_other k bs ni nj)

  pub locate-replace_other :
      (k x : ℕ) (bs : List Block)
      → find i bs ≡ some b
      → i ≢ k
      → j ≢ k
      → locate k x (alter i (λ d. c) bs) ≡ locate k x bs
  unfolding find locate alter
  locate-replace_other k x [] e ni nj = refl
  locate-replace_other k x (d ∷ bs) e ni nj = elim (Bool-cases (owns i d)) [
    | inl own ↦
        let same : d ≡ b = ground arith in
        let size : block_size c ≡ block_size d = ground arith in ground arith
    | inr other ↦ ground (arith, locate-replace_other k (x + block_size d) bs (ground arith) ni nj)
  ]

  pub locate-replace_self :
      (x : ℕ) (bs : List Block)
      → find i bs ≡ some b
      → ((j ≡ i) ⊎ (find j bs ≡ none))
      → locate j x (alter i (λ d. c) bs) ≡ locate i x bs
  unfolding find locate alter
  locate-replace_self x [] e apart = absurd (ground arith)
  locate-replace_self x (d ∷ bs) e apart = elim (Bool-cases (owns i d)) [
    | inl own ↦ ground arith
    | inr other ↦ elim apart [
      | inl same ↦
          ground (arith, locate-replace_self (x + block_size d) bs (ground arith) (inl same))
      | inr new ↦
          ground
            (arith, locate-replace_self (x + block_size d) bs (ground arith) (inr (ground arith)))
    ]
  ]

  pub find-replace_gone :
      (n : ℕ) (bs : List Block) → i ≢ j → IsDistinct n bs → find i (alter i (λ d. c) bs) ≡ none
  unfolding find alter IsDistinct
  find-replace_gone n [] ne s = refl
  find-replace_gone n (d ∷ bs) ne s = elim (Bool-cases (owns i d)) [
    | inl own ↦
        let live : d.dirty ≡ false = ground arith in
        let same : d.handle ≡ i = ground arith in
        let gone : find i bs ≡ none = subst (λ k. find k bs ≡ none) same (s.0 live).1 in
        ground (arith, gone)
    | inr other ↦ ground (arith, find-replace_gone n bs ne s.1)
  ]

  pub IsDistinct-replace :
      (n : ℕ) (bs : List Block)
      → j < n
      → ((j ≡ i) ⊎ (find j bs ≡ none))
      → IsDistinct n bs
      → IsDistinct n (alter i (λ d. c) bs)
  unfolding IsDistinct alter find
  IsDistinct-replace n [] lt apart s = tt
  IsDistinct-replace n (d ∷ bs) lt apart s = elim (Bool-cases (owns i d)) [
    | inl own ↦
        let live : d.dirty ≡ false = ground arith in
        let same : d.handle ≡ i = ground arith in
        let gone : find j bs ≡ none = elim apart [
          | inl e ↦ subst (λ k. find k bs ≡ none) (same ∙ sym e) (s.0 live).1
          | inr new ↦ ground arith
        ] in
        rw (alter, own) (λ e. rw named (lt, gone), s.1)
    | inr other ↦
        let rest : (j ≡ i) ⊎ (find j bs ≡ none) = elim apart [
          | inl e ↦ inl e
          | inr new ↦ inr (ground arith)
        ] in
        rw (alter, other)
          (
            λ e.
                let ni : i ≢ d.handle = λ f. ground (arith, e, f) in
                let nj : j ≢ d.handle = λ f. ground (arith, e, f, apart) in
                ((s.0 e).0, find-replace_other d.handle bs ni nj ∙ (s.0 e).1),
            IsDistinct-replace n bs lt rest s.1,
          )
  ]

  pub sums-replace :
      (bs : List Block)
      → find i bs ≡ some b
      → let cs : List Block = alter i (λ d. c) bs in
        (extent cs ≡ extent bs)
        × (clean_extent cs ≡ clean_extent bs)
        × (dirty_extent cs ≡ dirty_extent bs)
        × (clean_data cs ≡ clean_data bs)
        × (clean_count cs ≡ clean_count bs)
  unfolding clean_extent dirty_extent clean_data clean_count find alter
  sums-replace [] e = absurd (ground arith)
  sums-replace (d ∷ bs) e = elim (Bool-cases (owns i d)) [
    | inl own ↦
        let same : d ≡ b = ground arith in
        let live : d.dirty ≡ false = ground arith in
        let size : block_size c ≡ block_size d = ground arith in ground arith
    | inr other ↦ let e' : find i bs ≡ some b = ground arith in ground (arith, sums-replace bs e')
  ]

  pub canaries-replace :
      (bs : List Block)
      → c.canary ≡ canary_value
      → All (λ d. d.canary ≡ canary_value) bs
      → All (λ d. d.canary ≡ canary_value) (alter i (λ d. c) bs)
  unfolding alter
  canaries-replace [] whole all = tt
  canaries-replace (d ∷ bs) whole all = elim (Bool-cases (owns i d)) [
    | inl own ↦ rw (alter, own) (whole, all.1)
    | inr other ↦ rw (alter, other) (all.0, canaries-replace bs whole all.1)
  ]
