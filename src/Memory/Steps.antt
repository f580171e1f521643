-- ===== src/Memory/Steps.antt =====
-- Sequences of calls of the memory manager, from an empty heap.
use chromatron.Base.{
  ℕ, zero, suc, ◌+◌, ◌%◌, ◌≤◌, ◌<◌, ◌^◌, ◌≡◌, refl, sym, ◌∙◌, ap, Option, none, some, List, ◌==◌,
  if◌then◌else◌, length, Option-cases, arith, inl, inr, subst, get_or, some-injective, Bool-cases,
  ltb,
}
use chromatron.Base.Bytes.{◌>>=◌}
use chromatron.Base.Int.{ℤ, pos, negsuc}
use chromatron.Memory.{
  Heap, Block, init, alloc, free, write, realloc, collect, get_size, checked, verify, block_of,
  release, block_at, modify_at, moves_apart, defrag_threshold,
}
use chromatron.Memory.Blocks.{find}
use chromatron.Memory.Collector.{collect_lem}
use chromatron.Memory.Operations.{alloc_lem}
use chromatron.Memory.Realloc.{realloc_lem}
use chromatron.Memory.Release.{free_lem}
use chromatron.Memory.Sound.{
  IsSound, checked-find, checked-none, init-IsSound, block_of-find, entry,
}
use chromatron.Memory.Write.{write_lem}

-- One call that passes its asserts, or a write of a client. A block is allocated or reallocated with at most 65530
-- bytes, and reallocated to at least its size.
pub data Step : Heap → Heap → Type 0 where
  alloc_step :
      {m m' : Heap}
      → (size kind : ℕ) → (old : ℕ → ℕ) → (h : ℤ) → size + 5 < 2 ^ 16
      → alloc size kind old m ≡ some (h, m')
      → Step m m'
  free_step : {m m' : Heap} → (h : ℤ) → free h m ≡ some m' → Step m m'
  write_step : {m m' : Heap} → (h : ℤ) → (bs : List ℕ) → write h bs m ≡ some m' → Step m m'
  realloc_step :
      {m m' : Heap}
      → (h : ℤ) → (size n : ℕ) → (old : ℕ → ℕ) → (r : ℤ) → get_size h m ≡ some n
      → n ≤ size
      → size + 5 < 2 ^ 16
      → realloc h size old m ≡ some (r, m')
      → Step m m'
  collect_step : {m m' : Heap} → collect m ≡ some m' → Step m m'

-- any number of calls
pub data Reach (m : Heap) : Heap → Type 0 where
  no_calls : Reach m m
  one_more : {m' m'' : Heap} → Reach m m' → Step m' m'' → Reach m m''

-- A handle that passes the assert has a block.
checked_owned :
    (m : Heap)
    → IsSound m
    → (h : ℤ) (i : ℕ) → checked m h ≡ some i
    → (b : Block) × (h ≡ pos (suc i)) × (find i m.blocks ≡ some b)
unfolding checked verify
checked_owned m s (negsuc n) i e = absurd (ground arith)
checked_owned m s (pos zero) i e = absurd (ground arith)
checked_owned m s (pos (suc j)) i e = elim (Option-cases (find j m.blocks)) [
  | inl gone ↦ absurd (ground (arith, checked-none m s j gone, e))
  | inr (b, here) ↦
      let same : i ≡ j = ground (arith, checked-find m s j here, e) in rw same (b, refl, here)
]

-- a call that starts with the assert gets through it
passes :
    {A : Type 0} (m : Heap) (h : ℤ) (f : ℕ → Option A) (r : A)
    → (checked m h >>= f) ≡ some r
    → (i : ℕ) × (checked m h ≡ some i)
passes m h f r e = elim (Option-cases (checked m h)) [
  | inl out ↦ absurd (ground (arith, out, e))
  | inr found ↦ found
]

-- what holds of one outcome of a call holds of the other
carry :
    {A : Type 0} (p : A → Heap) {o : Option A} {x y : A}
    → o ≡ some x
    → o ≡ some y
    → IsSound (p x)
    → IsSound (p y)
carry p {o} {x} {y} e f = subst (λ z. IsSound (p z)) (some-injective x y (sym e ∙ f))

failed-IsSound :
    (m : Heap) → IsSound m → IsSound (record m { alloc_fails = (m.alloc_fails + 1) % 2 ^ 32 })
failed-IsSound m s = record {
  index = s.index;
  distinct = s.distinct;
  canaries = s.canaries;
  room = s.room;
  used = s.used;
  dirt = s.dirt;
  stored = s.stored;
  counted = s.counted;
  peak = s.peak;
  small = s.small;
  table = s.table;
}

-- Every call leaves a sound heap sound.
step-IsSound : {m m' : Heap} → Step m m' → IsSound m → IsSound m'
unfolding free write realloc get_size collect
step-IsSound {m = m} (alloc_step size kind old h low e) s = elim (alloc_lem m s size kind old low) [
  | inl (failed, why) ↦ carry (λ r. r.1) failed e (failed-IsSound m s)
  | inr (k, m1, given, s1, unused, new, long, others) ↦ carry (λ r. r.1) given e s1
]
step-IsSound {m = m} {m'} (free_step h e) s =
    let (i, through) = passes m h (λ i. release i m) m' e in
    let (b, here, owned) = checked_owned m s h i through in
    let lem = free_lem m s i b owned in
    carry (λ r. r) lem.1 (ap (λ k. free k m) (sym here) ∙ e) lem.2
step-IsSound {m = m} {m'} (write_step h bs e) s =
    let (i, through) =
      passes m h
        (λ i. do
          a ← get_or m.handles i none
          b ← block_at a m.blocks
          (if length bs == length b.payload
              then some
                  (record m { blocks = modify_at (λ c. record c { payload = bs }) a m.blocks })
              else none))
        m' e in
    let (b, here, owned) = checked_owned m s h i through in
    let (a, known, there, stands, changed) = entry m s i owned in
    let fits : length bs ≡ length b.payload = ground (arith, through, known, stands, e) in
    let lem = write_lem m s i b owned bs fits in
    carry (λ r. r) lem.1 (ap (λ k. write k bs m) (sym here) ∙ e) lem.2
step-IsSound {m = m} {m'} (realloc_step h size n old r e grows low e') s =
    let (i, through) = passes m h (λ i. do b ← block_of m i; some (length b.payload)) n e in
    let (b, here, owned) = checked_owned m s h i through in
    let held : length b.payload ≡ n = ground (arith, through, block_of-find m s i, owned, e) in
    let call : realloc (pos (suc i)) size old m ≡ some (r, m') =
      ap (λ k. realloc k size old m) (sym here) ∙ e' in
    elim (realloc_lem m s i b owned size old (omega (arith, held)) low) [
      | inl (failed, why) ↦ carry (λ r. r.1) failed call (failed-IsSound m s)
      | inr lem ↦ carry (λ r. r.1) lem.2 call lem.3
    ]
step-IsSound {m = m} (collect_step e) s = elim (Bool-cases (ltb m.dirty_space defrag_threshold)) [
  | inl few ↦ let stays : collect m ≡ some m = rw (collect, few) refl in carry (λ r. r) stays e s
  | inr many ↦ elim (Bool-cases (moves_apart 0 m.blocks)) [
    | inl apart ↦ let lem = collect_lem m s apart in carry (λ r. r) lem.1 e lem.2
    | inr over ↦
        let fault : collect m ≡ none = rw (collect, many, over) refl in
        absurd (ground (arith, fault, e))
  ]
]

reach-kept : {m m' : Heap} → Reach m m' → IsSound m → IsSound m'
reach-kept no_calls s = s
reach-kept (one_more r step) s = step-IsSound step (reach-kept r s)

-- The heap is sound, from mem2_v_init on with fewer than 2 ^ 15 bytes and fewer than 128 handles, behind any number
-- of allocations, releases, reallocations, collections and writes of a block's data that pass their asserts and
-- copy no overlapping bytes. The allocations and reallocations are of at most 65530 bytes, and a block is reallocated to at least
-- its size. In a sound heap the handle table says where the blocks are, no canary is written over, and the counters say how
-- much there is of each kind.
pub Reach-IsSound :
    {m : Heap}
    → (size max_handles : ℕ) → size < 2 ^ 15
    → max_handles < 2 ^ 7
    → Reach (init size max_handles) m
    → IsSound m
Reach-IsSound size max_handles low few r = reach-kept r (init-IsSound size max_handles low few)
