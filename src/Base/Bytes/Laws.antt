-- ===== src/Base/Bytes/Laws.antt =====
-- Tables of words in a byte buffer.
use Prim.Native.Nat.{ℕ, zero, suc, ◌+◌, ◌-◌, ◌*◌, ◌^◌, ◌<◌, ◌≤◌}
use mathlib.Core.Path.{◌≡◌, refl, ap}
use mathlib.Core.Option.{some}
use mathlib.Core.List.{List, [], ◌∷◌, ◌++◌}
use native.Mathlib.Omega.{arith}
use chromatron.Base.Lists.{length, take, drop, All}
use chromatron.Base.Bytes.{byte, words, bytes}

abbrev pub IsByte : ℕ → Type 0
IsByte b = b < 2 ^ 8

abbrev IsWord : ℕ → Type 0
IsWord w = w < 2 ^ 32

word_of_bytes :
    (w : ℕ) → IsWord w → byte w 0 + byte w 1 * 2 ^ 8 + byte w 2 * 2 ^ 16 + byte w 3 * 2 ^ 24 ≡ w
word_of_bytes w h = omega arith

pub length-bytes : (ws : List ℕ) → length (bytes ws) ≡ 4 * length ws
unfolding bytes
length-bytes [] = refl
length-bytes (w ∷ ws) = omega (arith, length-bytes ws)

pub bytes-IsByte : (ws : List ℕ) → All IsByte (bytes ws)
unfolding bytes
bytes-IsByte [] = tt
bytes-IsByte (w ∷ ws) = (omega arith, (omega arith, (omega arith, (omega arith, bytes-IsByte ws))))

-- Words that are written are read back, whatever stands behind them.
pub words-bytes :
    (ws rest : List ℕ) → All IsWord ws → words (length ws) (bytes ws ++ rest) ≡ some ws
unfolding words bytes
words-bytes [] rest h = refl
words-bytes (w ∷ ws) rest h = rw (words-bytes ws rest h.1, word_of_bytes w h.0)

pub words_total :
    (n : ℕ) (bs : List ℕ)
    → 4 * n ≤ length bs
    → All IsByte bs
    → (ws : List ℕ) × (words n bs ≡ some ws) × (length ws ≡ n) × All IsWord ws
unfolding words
words_total zero bs h b = ([], refl, refl, tt)
words_total (suc n) [] h b = absurd (omega arith)
words_total (suc n) (b0 ∷ []) h b = absurd (omega arith)
words_total (suc n) (b0 ∷ b1 ∷ []) h b = absurd (omega arith)
words_total (suc n) (b0 ∷ b1 ∷ b2 ∷ []) h b = absurd (omega arith)
words_total (suc n) (b0 ∷ b1 ∷ b2 ∷ b3 ∷ bs) h b =
    let (ws, e, l, r) = words_total n bs (omega arith) (b.1.1.1.1) in
    ((b0 + b1 * 2 ^ 8 + b2 * 2 ^ 16 + b3 * 2 ^ 24) ∷ ws, rw e, ap suc l, (omega arith, r))

module _ {ℓ} {A : Type ℓ} where
  pub length-take : (n : ℕ) (xs : List A) → n ≤ length xs → length (take n xs) ≡ n
  length-take zero xs h = refl
  length-take (suc n) [] h = absurd (omega arith)
  length-take (suc n) (x ∷ xs) h = ap suc (length-take n xs (omega arith))

  pub length-drop : (n : ℕ) (xs : List A) → length (drop n xs) ≡ length xs - n
  length-drop zero xs = omega arith
  length-drop (suc n) [] = omega arith
  length-drop (suc n) (x ∷ xs) = omega (arith, length-drop n xs)

  pub drop-length : (xs ys : List A) (n : ℕ) → length xs ≡ n → drop n (xs ++ ys) ≡ ys
  drop-length [] ys zero h = refl
  drop-length [] ys (suc n) h = absurd (omega arith)
  drop-length (x ∷ xs) ys zero h = absurd (omega arith)
  drop-length (x ∷ xs) ys (suc n) h = drop-length xs ys n (omega arith)

  pub take-take-append :
      (k d : ℕ) (xs ys : List A) → k ≤ d → d ≤ length xs → take k (take d xs ++ ys) ≡ take k xs
  take-take-append zero d xs ys h l = refl
  take-take-append (suc k) zero xs ys h l = absurd (omega arith)
  take-take-append (suc k) (suc d) [] ys h l = absurd (omega arith)
  take-take-append (suc k) (suc d) (x ∷ xs) ys h l =
      ap (λ zs. x ∷ zs) (take-take-append k d xs ys (omega arith) (omega arith))

  -- A part of a list that ends by index `d` is not changed by what stands from `d` on.
  pub take-drop-take :
      (c d k : ℕ) (xs ys : List A)
      → c + k ≤ d
      → d ≤ length xs
      → take k (drop c (take d xs ++ ys)) ≡ take k (drop c xs)
  take-drop-take zero d k xs ys h l = take-take-append k d xs ys (omega arith) l
  take-drop-take (suc c) zero k xs ys h l = absurd (omega arith)
  take-drop-take (suc c) (suc d) k [] ys h l = absurd (omega arith)
  take-drop-take (suc c) (suc d) k (x ∷ xs) ys h l =
      take-drop-take c d k xs ys (omega arith) (omega arith)

  pub All-append {κ} : (P : A → Type κ) (xs ys : List A) → All P xs → All P ys → All P (xs ++ ys)
  All-append P [] ys hx hy = hy
  All-append P (x ∷ xs) ys hx hy = (hx.0, All-append P xs ys hx.1 hy)

  pub All-take {κ} : (P : A → Type κ) (n : ℕ) (xs : List A) → All P xs → All P (take n xs)
  All-take P zero xs h = tt
  All-take P (suc n) [] h = tt
  All-take P (suc n) (x ∷ xs) h = (h.0, All-take P n xs h.1)

  pub All-drop {κ} : (P : A → Type κ) (n : ℕ) (xs : List A) → All P xs → All P (drop n xs)
  All-drop P zero xs h = h
  All-drop P (suc n) [] h = tt
  All-drop P (suc n) (x ∷ xs) h = All-drop P n xs h.1
