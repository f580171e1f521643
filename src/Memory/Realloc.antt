-- ===== src/Memory/Realloc.antt =====
-- mem2_i8_realloc on a sound heap, to at least the size that the block has.
use chromatron.Base.{
  ℕ, suc, ◌+◌, ◌-◌, ◌%◌, ◌≤◌, ◌<◌, ◌^◌, ◌≡◌, ◌≢◌, refl, sym, ◌∙◌, ap, true, none, some, List, [],
  ◌∷◌, ◌++◌, leb, length, length-set, get_or, get_or-below, get_or-set_ne, arith, inl, inr,
  ℕ_discrete, subst, ◌⊎◌, take, drop,
}
use chromatron.Base.Int.{pos, negsuc}
use chromatron.Memory.{
  Heap, Block, modify_at, new_block, realloc, exchange, copy_block, free_handle,
}
use chromatron.Memory.Blocks.{find, alter}
use chromatron.Memory.Operations.{alloc_lem}
use chromatron.Memory.Release.{
  released, released-IsSound, release_all, find-retire_other, find-retire_self,
}
use chromatron.Memory.Replace.{
  alter-constant, find-replace_self, find-replace_other, find-replace_gone,
}
use chromatron.Memory.Rename.{renamed, renamed-IsSound, clean}
use chromatron.Memory.Sound.{IsSound, entry, checked-find, block_of-find, find_clean}
use chromatron.Memory.Write.{replaced, replaced-IsSound}

length-over :
    (xs ys : List ℕ) → length xs ≤ length ys → length (xs ++ drop (length xs) ys) ≡ length ys
length-over [] ys h = refl
length-over (x ∷ xs) [] h = absurd (omega arith)
length-over (x ∷ xs) (y ∷ ys) h = ap suc (length-over xs ys (omega arith))

take_over : (xs ys : List ℕ) → take (length xs) (xs ++ ys) ≡ xs
take_over [] ys = refl
take_over (x ∷ xs) ys = ap (λ zs. x ∷ zs) (take_over xs ys)

-- the heap behind alloc, with the new block `c` at the handle `k`
module _ (m : Heap) (s : IsSound m) (i k : ℕ) (b c : Block) (owned : find i m.blocks ≡ some b)
    (new : find k m.blocks ≡ some c) (differ : i ≢ k)
    (fits : length b.payload ≤ length c.payload) where
  abbrev pour : Block → Block
  pour d = record d { payload = b.payload ++ drop (length b.payload) d.payload }

  abbrev filled : Heap
  filled =
      let (clean, named, whole) = find_clean k m.blocks s.canaries new in
      replaced m s k c (pour c) new clean named whole (length-over b.payload c.payload fits)

  filled-IsSound : IsSound filled
  filled-IsSound =
      let (clean, named, whole) = find_clean k m.blocks s.canaries new in
      replaced-IsSound m s k c (pour c) new clean named whole (length-over b.payload c.payload fits)

  filled_old : find i filled.blocks ≡ some b
  filled_old =
      let (clean, named, whole) = find_clean k m.blocks s.canaries new in
      find-replace_other k k c (pour c) clean named (length-over b.payload c.payload fits) i
        m.blocks (λ e. differ (sym e)) (λ e. differ (sym e))
      ∙ owned

  filled_new : find k filled.blocks ≡ some (pour c)
  filled_new =
      let (clean, named, whole) = find_clean k m.blocks s.canaries new in
      find-replace_self k k c (pour c) clean named (length-over b.payload c.payload fits) m.blocks
        new (inl refl)

  abbrev bare : Heap
  bare = released filled filled-IsSound i b filled_old

  bare-IsSound : IsSound bare
  bare-IsSound = released-IsSound filled filled-IsSound i b filled_old

  bare_old : find i bare.blocks ≡ none
  bare_old = find-retire_self i (length filled.handles) filled.blocks filled-IsSound.distinct

  bare_new : find k bare.blocks ≡ some (pour c)
  bare_new = find-retire_other i k filled.blocks differ ∙ filled_new

  exchange_all :
      (m' : Heap) × (exchange i k m ≡ some m')
      × IsSound m'
      × (find i m'.blocks ≡ some (record (pour c) { handle = i }))
      × ((j : ℕ) → i ≢ j → k ≢ j → find j m'.blocks ≡ find j m.blocks)
      × (find k m'.blocks ≡ none)
  unfolding exchange copy_block
  exchange_all =
      let (clean, called, whole) = find_clean k m.blocks s.canaries new in
      let (from, known, there, here, changed) = entry m s i owned in
      let (to, known', there', here', changed') = entry m s k new in
      let (to2, known2, there2, here2, changed2) = entry bare bare-IsSound k bare_new in
      let known3 : get_or bare.handles k none ≡ some to =
        get_or-set_ne m.handles i k none none differ ∙ known' in
      let same : to2 ≡ to = ground (arith, known2, known3) in
      let filling : modify_at pour to m.blocks ≡ filled.blocks =
        changed' pour ∙ alter-constant k pour m.blocks new in
      let test : leb (length b.payload) (length c.payload) ≡ true = ground arith in
      let copied : copy_block from to m.blocks ≡ some filled.blocks =
        rw (copy_block, here, here', test, filling) refl in
      let naming : modify_at (λ d. record d { handle = i }) to bare.blocks
          ≡ alter k (λ d. record (pour c) { handle = i }) bare.blocks =
        ap (λ a. modify_at (λ d. record d { handle = i }) a bare.blocks) (sym same)
        ∙ changed2 (λ d. record d { handle = i })
        ∙ alter-constant k (λ d. record d { handle = i }) bare.blocks bare_new in
      let below : i < length bare.handles =
        subst (λ n. i < n) (sym (length-set m.handles i none))
          (get_or-below m.handles i from known) in
      let apart : k ≢ i = λ e. differ (sym e) in
      (
        renamed bare bare-IsSound i k (pour c) bare_new bare_old below to known3,
        rw
            (
              exchange,
              known,
              known',
              copied,
              release_all filled filled-IsSound i b filled_old,
              naming,
            )
            refl,
        renamed-IsSound bare bare-IsSound i k (pour c) bare_new bare_old below to known3,
        find-replace_self k i (pour c) (record (pour c) { handle = i }) clean refl refl bare.blocks
            bare_new (inr bare_old),
        λ j ni nk.
            find-replace_other k i (pour c) (record (pour c) { handle = i }) clean refl refl j
              bare.blocks nk ni
            ∙ find-retire_other i j filled.blocks ni
            ∙ find-replace_other k k c (pour c) clean called (length-over b.payload c.payload fits)
                j m.blocks nk nk,
        find-replace_gone k i (pour c) (record (pour c) { handle = i }) clean refl refl
            (length bare.handles) bare.blocks apart bare-IsSound.distinct,
      )

module _ (m : Heap) (s : IsSound m) (i : ℕ) (b : Block) (owned : find i m.blocks ≡ some b)
    (size : ℕ) (old : ℕ → ℕ) where
  -- a reallocation that fails, with the block as it was
  abbrev pub Unchanged : Type 0
  Unchanged =
      (realloc (pos (suc i)) size old m
        ≡ some (negsuc 0, record m { alloc_fails = (m.alloc_fails + 1) % 2 ^ 32 }))
      × ((m.free_space < size + 5) ⊎ (free_handle m.handles ≡ none))

  -- a reallocation that succeeds, with the data in a block of the new size
  abbrev pub Grown : Type 0
  Grown =
      (m' : Heap) × (c : Block) × (realloc (pos (suc i)) size old m ≡ some (pos 0, m'))
      × IsSound m'
      × (find i m'.blocks ≡ some c)
      × (length c.payload ≡ size)
      × (c.kind ≡ b.kind)
      × (take (length b.payload) c.payload ≡ b.payload)
      × ((j : ℕ) → i ≢ j → find j m'.blocks ≡ find j m.blocks)

  -- mem2_i8_realloc on a sound heap, of a block to at least its size and at most 65530 bytes (size + 5 < 2 ^ 16): -1 with all blocks as they were, or 0, and the same handle
  -- then has a block of the new size and the old kind, which starts with the old data. The heap stays
  -- sound and the blocks of all other handles are what they were.
  pub realloc_lem : length b.payload ≤ size → size + 5 < 2 ^ 16 → Unchanged ⊎ Grown
  unfolding realloc new_block
  realloc_lem grows h = elim (alloc_lem m s size b.kind old h) [
    | inl (failed, why) ↦
        inl (rw (realloc, checked-find m s i owned, block_of-find m s i, owned, failed) refl, why)
    | inr (k, m1, given, s1, unused, new, long, others) ↦
        let differ : k ≢ i =
          λ e. ground (arith, subst (λ j. find j m.blocks ≡ none) e unused, owned) in
        let (m', done, s', mine, rest, spare) =
          exchange_all m1 s1 i k b (new_block size b.kind old k) (others i differ ∙ owned) new
            (λ e. differ (sym e)) (omega (arith, long)) in
        let step : exchange i (suc k - 1) m1 ≡ some m' =
          ap (λ j. exchange i j m1) (omega arith) ∙ done in
        inr (
          m',
          record (new_block size b.kind old k) {
            handle = i;
            payload = b.payload ++ drop (length b.payload) (new_block size b.kind old k).payload;
          },
          rw (realloc, checked-find m s i owned, block_of-find m s i, owned, given, step) refl,
          s',
          mine,
          length-over b.payload (new_block size b.kind old k).payload (omega (arith, long)) ∙ long,
          refl,
          take_over b.payload (drop (length b.payload) (new_block size b.kind old k).payload),
          λ j ni. elim (ℕ_discrete k j) [
            | yes same ↦ subst (λ j. find j m'.blocks ≡ find j m.blocks) same (spare ∙ sym unused)
            | no nk ↦ rest j ni nk ∙ others j nk
          ],
        )
  ]
