-- ===== src/Memory/Collector/Moves.antt =====
-- The loops of mem2_v_collect_garbage: the blocks they keep and the handles they set.
use chromatron.Base.{
  ℕ, ◌+◌, ◌≡◌, refl, ◌∙◌, false, Option, none, some, List, [], ◌∷◌, if◌then◌else◌, length,
  length-set, get_or, get_or-set_ne, get_or-set_self, set, arith, Bool-cases, inl, inr, ℕ_discrete,
  subst,
}
use chromatron.Memory.{Block, block_size, move_down, first_dirty}
use chromatron.Memory.Blocks.{locate, find, IsDistinct, locate-none}

-- the clean blocks
unfoldable pub clean : List Block → List Block
clean [] = []
clean (b ∷ bs) = if b.dirty then clean bs else b ∷ clean bs

move_down_blocks :
    (to : ℕ) (bs : List Block) (hs : List (Option ℕ)) → (move_down to bs hs).0 ≡ clean bs
unfolding move_down clean
move_down_blocks to [] hs = refl
move_down_blocks to (b ∷ bs) hs = ground (
  arith,
  move_down_blocks to bs hs,
  move_down_blocks (to + block_size b) bs (set hs b.handle (some to)),
)

pub first_dirty_blocks :
    (at : ℕ) (bs : List Block) (hs : List (Option ℕ)) → (first_dirty at bs hs).0 ≡ clean bs
unfolding first_dirty clean
first_dirty_blocks at [] hs = refl
first_dirty_blocks at (b ∷ bs) hs = elim (Bool-cases b.dirty) [
  | inl d ↦ ground (arith, move_down_blocks at (b ∷ bs) hs)
  | inr c ↦ ground (arith, first_dirty_blocks (at + block_size b) bs hs)
]

pub find-clean : (i : ℕ) (bs : List Block) → find i (clean bs) ≡ find i bs
unfolding find clean
find-clean i [] = refl
find-clean i (b ∷ bs) = ground (arith, find-clean i bs)

-- what the table says behind a loop that sets the handles of the blocks it moves
abbrev pub or_else : Option ℕ → Option ℕ → Option ℕ
or_else none d = d
or_else (some a) d = some a

module _ (n i : ℕ) where
  move_down_handles :
      (to : ℕ) (bs : List Block) (hs : List (Option ℕ))
      → length hs ≡ n
      → IsDistinct n bs
      → get_or (move_down to bs hs).1 i none ≡ or_else (locate i to (clean bs)) (get_or hs i none)
  unfolding move_down clean locate IsDistinct
  move_down_handles to [] hs len s = refl
  move_down_handles to (b ∷ bs) hs len s = elim (Bool-cases b.dirty) [
    | inl d ↦ ground (arith, move_down_handles to bs hs len s.1)
    | inr c ↦
        let own = s.0 c in
        let hs1 : List (Option ℕ) = set hs b.handle (some to) in
        let ih =
          move_down_handles (to + block_size b) bs hs1 (length-set hs b.handle (some to) ∙ len)
            s.1 in
        elim (ℕ_discrete b.handle i) [
          | yes same ↦
              let gone : locate i (to + block_size b) (clean bs) ≡ none =
                locate-none i (to + block_size b) (clean bs)
                  (find-clean i bs ∙ subst (λ k. find k bs ≡ none) same own.1) in
              let here : get_or hs1 i none ≡ some to =
                subst (λ k. get_or hs1 k none ≡ some to) same
                  (get_or-set_self hs b.handle (some to) none (omega (arith, own.0))) in
              ground (arith, ih, gone, here)
          | no differ ↦
              let there : get_or hs1 i none ≡ get_or hs i none =
                get_or-set_ne hs b.handle i (some to) none differ in
              ground (arith, ih, there)
        ]
  ]

-- The table knows the clean blocks from `at` on.
abbrev pub Knows : List (Option ℕ) → ℕ → List Block → Type 0
Knows hs at bs = (i a : ℕ) → locate i at bs ≡ some a → get_or hs i none ≡ some a

Knows-rest :
    (n : ℕ) (hs : List (Option ℕ)) (at : ℕ) (b : Block) (bs : List Block)
    → b.dirty ≡ false
    → IsDistinct n (b ∷ bs)
    → Knows hs at (b ∷ bs)
    → Knows hs (at + block_size b) bs
unfolding locate IsDistinct
Knows-rest n hs at b bs c s k i a e = elim (ℕ_discrete b.handle i) [
  | yes same ↦
      let gone : locate i (at + block_size b) bs ≡ none =
        locate-none i (at + block_size b) bs (subst (λ j. find j bs ≡ none) same (s.0 c).1) in
      absurd (ground (arith, gone))
  | no differ ↦ ground (arith, k i a)
]

module _ (n i : ℕ) where
  pub first_dirty_handles :
      (at : ℕ) (bs : List Block) (hs : List (Option ℕ))
      → length hs ≡ n
      → IsDistinct n bs
      → Knows hs at bs
      → get_or (first_dirty at bs hs).1 i none ≡ or_else (locate i at (clean bs)) (get_or hs i none)
  unfolding first_dirty clean locate IsDistinct
  first_dirty_handles at [] hs len s k = refl
  first_dirty_handles at (b ∷ bs) hs len s k = elim (Bool-cases b.dirty) [
    | inl d ↦ ground (arith, move_down_handles n i at (b ∷ bs) hs len s)
    | inr c ↦
        let ih =
          first_dirty_handles (at + block_size b) bs hs len s.1 (Knows-rest n hs at b bs c s k) in
        elim (ℕ_discrete b.handle i) [
          | yes same ↦
              let gone : locate i (at + block_size b) (clean bs) ≡ none =
                locate-none i (at + block_size b) (clean bs)
                  (find-clean i bs ∙ subst (λ j. find j bs ≡ none) same (s.0 c).1) in
              ground (arith, ih, gone, k i at)
          | no differ ↦ ground (arith, ih)
        ]
  ]

length-move_down :
    (to : ℕ) (bs : List Block) (hs : List (Option ℕ)) → length (move_down to bs hs).1 ≡ length hs
unfolding move_down
length-move_down to [] hs = refl
length-move_down to (b ∷ bs) hs = ground (
  arith,
  length-move_down to bs hs,
  length-move_down (to + block_size b) bs (set hs b.handle (some to)),
  length-set hs b.handle (some to),
)

pub length-first_dirty :
    (at : ℕ) (bs : List Block) (hs : List (Option ℕ)) → length (first_dirty at bs hs).1 ≡ length hs
unfolding first_dirty
length-first_dirty at [] hs = refl
length-first_dirty at (b ∷ bs) hs = elim (Bool-cases b.dirty) [
  | inl d ↦ ground (arith, length-move_down at (b ∷ bs) hs)
  | inr c ↦ ground (arith, length-first_dirty (at + block_size b) bs hs)
]
