-- ===== src/Card/Words.antt =====
-- Blocks of bytes as 32-bit words: `struct.unpack` of tools/sdkernel.py and the SD_DATA register of
-- sw/sbi/sdboot.c, both little-endian.
use koti.Base.{
  ℕ, zero, suc, ◌+◌, ◌*◌, ◌%◌, ◌^◌, ◌<◌, ◌≡◌, refl, ap, arith, List, [], ◌∷◌, ◌++◌, length, take,
  drop,
}
use koti.Base.Bytes.{from_le}

-- `struct.unpack(f"<{n}I", bs)`.
unfoldable pub words : List ℕ → List ℕ
words (a ∷ b ∷ c ∷ d ∷ bs) = from_le (a ∷ b ∷ c ∷ d ∷ []) ∷ words bs
words _ = []

-- The word number `i`.
unfoldable pub read_word : List ℕ → ℕ → ℕ
read_word bs i = from_le (take 4 (drop (4 * i) bs))

-- `sum(words)`.
unfoldable pub sum : List ℕ → ℕ
sum [] = 0
sum (w ∷ ws) = w + sum ws

-- The firmware's 32-bit `sum += w`.
unfoldable pub add_words : ℕ → List ℕ → ℕ
add_words total [] = total
add_words total (w ∷ ws) = add_words ((total + w) % 2 ^ 32) ws

pub add_words_lem :
    (total : ℕ) (ws : List ℕ) → total < 2 ^ 32 → add_words total ws ≡ (total + sum ws) % 2 ^ 32
unfolding add_words sum
add_words_lem total [] h = omega arith
add_words_lem total (w ∷ ws) h =
    omega (arith, add_words_lem ((total + w) % 2 ^ 32) ws (omega arith))

pub sum-append : (vs ws : List ℕ) → sum (vs ++ ws) ≡ sum vs + sum ws
unfolding sum
sum-append [] ws = omega arith
sum-append (v ∷ vs) ws = omega (arith, sum-append vs ws)

pub words-append :
    (k : ℕ) (xs ys : List ℕ) → length xs ≡ 4 * k → words (xs ++ ys) ≡ words xs ++ words ys
unfolding words
words-append zero [] ys h = refl
words-append zero (x ∷ xs) ys h = absurd (omega arith)
words-append (suc k) [] ys h = absurd (omega arith)
words-append (suc k) (a ∷ []) ys h = absurd (omega arith)
words-append (suc k) (a ∷ b ∷ []) ys h = absurd (omega arith)
words-append (suc k) (a ∷ b ∷ c ∷ []) ys h = absurd (omega arith)
words-append (suc k) (a ∷ b ∷ c ∷ d ∷ xs) ys h =
    ap (λ t. from_le (a ∷ b ∷ c ∷ d ∷ []) ∷ t) (words-append k xs ys (omega arith))
