-- ===== src/Memory/Write.antt =====
-- Writes through the pointer of a handle, on a sound heap.
use chromatron.Base.{
  ℕ, suc, ◌<◌, ◌≡◌, ◌≢◌, refl, sym, ◌∙◌, false, some, List, length, get_or-below, arith, inl,
  ℕ_discrete, subst,
}
use chromatron.Base.Int.{pos}
use chromatron.Memory.{Heap, Block, canary_value, write, contents, modify_at}
use chromatron.Memory.Blocks.{locate, find, alter}
use chromatron.Memory.Replace.{
  alter-constant, find-replace_self, find-replace_other, locate-replace_self, locate-replace_other,
  sums-replace, canaries-replace, IsDistinct-replace,
}
use chromatron.Memory.Sound.{IsSound, entry, checked-find, contents-find, find_clean}

module _ (m : Heap) (s : IsSound m) (i : ℕ) (b c : Block) (owned : find i m.blocks ≡ some b)
    (clean : c.dirty ≡ false) (named : c.handle ≡ i) (whole : c.canary ≡ canary_value)
    (long : length c.payload ≡ length b.payload) where
  -- the heap with `c` in the place of `b`
  abbrev pub replaced : Heap
  replaced = record m { blocks = alter i (λ d. c) m.blocks }

  -- A block of a handle is in the table.
  below : i < length m.handles
  below = get_or-below m.handles i (entry m s i owned).0 (entry m s i owned).1

  pub replaced-IsSound : IsSound replaced
  replaced-IsSound =
      let sums = sums-replace i i b c clean named long m.blocks owned in
      record {
        index = λ k. s.index k ∙ elim (ℕ_discrete i k) [
          | yes same ↦
              subst (λ k. locate k 0 m.blocks ≡ locate k 0 (alter i (λ d. c) m.blocks)) same
                (sym (locate-replace_self i i b c clean named long 0 m.blocks owned (inl refl)))
          | no differ ↦
              sym (locate-replace_other i i b c clean named long k 0 m.blocks owned differ differ)
        ];
        distinct =
            IsDistinct-replace i i b c clean named long (length m.handles) m.blocks below (inl refl)
              s.distinct;
        canaries = canaries-replace i i b c clean named long m.blocks whole s.canaries;
        room = omega (arith, sums.0, s.room);
        used = s.used ∙ sym sums.1;
        dirt = s.dirt ∙ sym sums.2;
        stored = s.stored ∙ sym sums.3;
        counted = s.counted ∙ sym sums.4;
        peak = s.peak;
        small = s.small;
        table = s.table;
      }

module _ (m : Heap) (s : IsSound m) (i : ℕ) (b : Block) (owned : find i m.blocks ≡ some b)
    (bs : List ℕ) (long : length bs ≡ length b.payload) where
  abbrev written : Block
  written = record b { payload = bs }

  -- A write of all of a block's data through its handle succeeds and is read back. The heap stays sound, and the
  -- blocks of all other handles are what they were.
  pub write_lem :
      (m' : Heap) × (write (pos (suc i)) bs m ≡ some m')
      × IsSound m'
      × (contents (pos (suc i)) m' ≡ some bs)
      × ((j : ℕ) → i ≢ j → find j m'.blocks ≡ find j m.blocks)
  unfolding write
  write_lem =
      let (a, known, there, here, changed) = entry m s i owned in
      let (clean, named, whole) = find_clean i m.blocks s.canaries owned in
      let m' : Heap = replaced m s i b written owned clean named whole long in
      let s' : IsSound m' = replaced-IsSound m s i b written owned clean named whole long in
      let fresh : find i m'.blocks ≡ some written =
        find-replace_self i i b written clean named long m.blocks owned (inl refl) in
      let same : modify_at (λ c. record c { payload = bs }) a m.blocks
          ≡ alter i (λ c. written) m.blocks =
        changed (λ c. record c { payload = bs })
        ∙ alter-constant i (λ c. record c { payload = bs }) m.blocks owned in
      (
        m',
        rw (write, checked-find m s i owned, known, here, same) (ground (arith, long)),
        s',
        rw (contents-find m' s' i, fresh) refl,
        λ j differ. find-replace_other i i b written clean named long j m.blocks differ differ,
      )
