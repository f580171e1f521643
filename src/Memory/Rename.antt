-- ===== src/Memory/Rename.antt =====
-- A block that passes to another handle, as at the end of mem2_i8_realloc.
use chromatron.Base.{
  ◌^◌, ℕ, ◌<◌, ◌≡◌, ◌≢◌, refl, sym, ◌∙◌, false, none, some, length, length-set, get_or,
  get_or-set_self, get_or-set_ne, set, arith, inr, ℕ_discrete, subst,
}
use chromatron.Memory.{Heap, Block}
use chromatron.Memory.Blocks.{locate, locate-none, find, alter, IsDistinct}
use chromatron.Memory.Release.{get_or-set_empty}
use chromatron.Memory.Replace.{
  find-replace_gone, locate-replace_self, locate-replace_other, sums-replace, canaries-replace,
  IsDistinct-replace,
}
use chromatron.Memory.Sound.{IsSound, find_clean}

-- The block of `k` goes to the handle `i`, which has none.
module _ (m : Heap) (s : IsSound m) (i k : ℕ) (b : Block) (owned : find k m.blocks ≡ some b)
    (free : find i m.blocks ≡ none) (lt : i < length m.handles) (a : ℕ)
    (known : get_or m.handles k none ≡ some a) where
  abbrev pub named : Block
  named = record b { handle = i }

  abbrev pub renamed : Heap
  renamed = record m {
    blocks = alter k (λ c. named) m.blocks;
    handles = set (set m.handles i (some a)) k none;
  }

  pub differ : k ≢ i
  differ e = ground (arith, subst (λ j. find j m.blocks ≡ some b) e owned, free)

  pub clean : named.dirty ≡ false
  clean = (find_clean k m.blocks s.canaries owned).0

  renamed_index : (j : ℕ) → get_or renamed.handles j none ≡ locate j 0 renamed.blocks
  renamed_index j = elim (ℕ_discrete k j) [
    | yes same ↦
        subst (λ j. get_or renamed.handles j none ≡ locate j 0 renamed.blocks) same
          (get_or-set_empty (set m.handles i (some a)) k
            ∙ sym (
                locate-none k 0 (alter k (λ c. named) m.blocks) (
                  find-replace_gone k i b named clean refl refl (length m.handles) m.blocks differ
                    s.distinct)))
    | no apart ↦ elim (ℕ_discrete i j) [
      | yes same ↦
          subst (λ j. get_or renamed.handles j none ≡ locate j 0 renamed.blocks) same
            (get_or-set_ne (set m.handles i (some a)) k i none none differ
              ∙ get_or-set_self m.handles i (some a) none lt
              ∙ sym known
              ∙ s.index k
              ∙ sym (locate-replace_self k i b named clean refl refl 0 m.blocks owned (inr free)))
      | no other ↦
          get_or-set_ne (set m.handles i (some a)) k j none none apart
          ∙ get_or-set_ne m.handles i j (some a) none other
          ∙ s.index j
          ∙ sym (locate-replace_other k i b named clean refl refl j 0 m.blocks owned apart other)
    ]
  ]

  pub renamed-IsSound : IsSound renamed
  renamed-IsSound =
      let sums = sums-replace k i b named clean refl refl m.blocks owned in
      record {
        index = renamed_index;
        distinct =
            subst (λ n. IsDistinct n (alter k (λ c. named) m.blocks))
              (sym (length-set (set m.handles i (some a)) k none ∙ length-set m.handles i (some a)))
              (IsDistinct-replace k i b named clean refl refl (length m.handles) m.blocks lt
                (inr free) s.distinct);
        canaries =
            canaries-replace k i b named clean refl refl m.blocks
              (find_clean k m.blocks s.canaries owned).2 s.canaries;
        room = omega (arith, sums.0, s.room);
        used = s.used ∙ sym sums.1;
        dirt = s.dirt ∙ sym sums.2;
        stored = s.stored ∙ sym sums.3;
        counted = s.counted ∙ sym sums.4;
        peak = s.peak;
        small = s.small;
        table =
            subst (λ n. n < 2 ^ 7)
              (sym (length-set (set m.handles i (some a)) k none ∙ length-set m.handles i (some a)))
              s.table;
      }
