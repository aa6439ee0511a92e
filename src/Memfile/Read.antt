-- ===== src/Memfile/Read.antt =====
-- What `$readmemh` reads from the files of fpga/ulx3s/mkflashhex.py and test/mkhex.py.
use koti.Base.{
  ℕ, zero, suc, ◌+◌, ◌-◌, ◌*◌, ◌/◌, ◌%◌, ◌≤◌, ◌<◌, ◌≡◌, refl, sym, ap, ◌∙◌, arith, none, some, true,
  false, ltb, ◌==◌, List, [], ◌∷◌, ◌++◌, length, replicate, All, All-append, All-replicate,
  Bool-cases, inl, inr, ◌⊎◌, append_assoc, append-nil, length-append, length-replicate,
}
use koti.Base.Text.{Text, hex, hex2, hex8, zero_pad}
use koti.Base.Number.{
  is_hex, is_dec, digit_value, value, Passes, value-zeros, value-hex, hex-Passes,
}
use koti.Base.Bytes.{IsByte, to_le, from_le}
use koti.Card.Words.{words}
use koti.Memfile.Files.{byte_lines, zero_lines, flash_hex, whole_words, word_lines, word_hex}

-- The numbers of a file of hexadecimal lines, `n` being the digits of the line so far.
unfoldable pub read_hex : ℕ → Text → List ℕ
read_hex n [] = []
read_hex n (c ∷ text) = elim (c == 10) [
  | true ↦ n ∷ read_hex 0 text
  | false ↦ read_hex (n * 16 + digit_value c) text
]

is_hex-newline : (c : ℕ) → is_hex c ≡ true → (c == 10) ≡ false
unfolding is_hex is_dec
is_hex-newline c h = ground arith

read_hex-line :
    (n : ℕ) (digits rest : Text)
    → Passes is_hex digits
    → read_hex n (digits ++ (10 ∷ rest)) ≡ value 16 n digits ∷ read_hex 0 rest
unfolding read_hex value
read_hex-line n [] rest h = refl
read_hex-line n (c ∷ digits) rest h =
    let other = is_hex-newline c h.0 in
    rw (other, read_hex) (read_hex-line (n * 16 + digit_value c) digits rest h.1)

read_hex-zero_pad :
    (w n : ℕ) (rest : Text) → read_hex 0 (zero_pad w (hex n) ++ (10 ∷ rest)) ≡ n ∷ read_hex 0 rest
unfolding zero_pad is_hex is_dec
read_hex-zero_pad w n rest =
    let zeros = replicate (w - length (hex n)) b'0' in
    read_hex-line 0 (zeros ++ hex n) rest
      (All-append (λ c. is_hex c ≡ true) zeros (hex n) (All-replicate _ _ b'0' refl) (hex-Passes n))
    ∙ ap (λ (v : ℕ). v ∷ read_hex 0 rest) (value-zeros (w - length (hex n)) (hex n) ∙ value-hex n)

read_hex-byte_lines :
    (src : List ℕ) (rest : Text) → read_hex 0 (byte_lines src ++ rest) ≡ src ++ read_hex 0 rest
unfolding byte_lines hex2
read_hex-byte_lines [] rest = refl
read_hex-byte_lines (b ∷ src) rest =
    ap (read_hex 0) (append_assoc (zero_pad 2 (hex b)) (10 ∷ byte_lines src) rest)
    ∙ read_hex-zero_pad 2 b (byte_lines src ++ rest)
    ∙ ap (λ (l : List ℕ). b ∷ l) (read_hex-byte_lines src rest)

read_hex-zero_lines : (k : ℕ) → read_hex 0 (zero_lines (replicate k 0)) ≡ replicate k 0
unfolding read_hex zero_lines digit_value
read_hex-zero_lines zero = refl
read_hex-zero_lines (suc k) = ap (λ (l : List ℕ). 0 ∷ l) (read_hex-zero_lines k)

read_hex-word_lines : (ws : List ℕ) → read_hex 0 (word_lines ws) ≡ ws
unfolding word_lines hex8 read_hex
read_hex-word_lines [] = refl
read_hex-word_lines (w ∷ ws) =
    read_hex-zero_pad 8 w (word_lines ws) ∙ ap (λ (l : List ℕ). w ∷ l) (read_hex-word_lines ws)

-- The bytes of a memory of words, the low byte of each first.
unfoldable pub word_bytes : List ℕ → List ℕ
word_bytes [] = []
word_bytes (w ∷ ws) = to_le 4 w ++ word_bytes ws

to_le-from_le :
    (a b c d : ℕ)
    → IsByte a
    → IsByte b
    → IsByte c
    → IsByte d
    → to_le 4 (from_le (a ∷ b ∷ c ∷ d ∷ [])) ≡ a ∷ b ∷ c ∷ d ∷ []
unfolding to_le from_le
to_le-from_le a b c d ha hb hc hd =
    let n = a + 256 * (b + 256 * (c + 256 * (d + 256 * 0))) in
    let e0 : n % 256 ≡ a = omega arith in
    let e1 : n / 256 % 256 ≡ b = omega arith in
    let e2 : n / 256 / 256 % 256 ≡ c = omega arith in
    let e3 : n / 256 / 256 / 256 % 256 ≡ d = omega arith in rw (e0, e1, e2, e3) refl

word_bytes-words :
    (k : ℕ) (bs : List ℕ) → length bs ≡ 4 * k → All IsByte bs → word_bytes (words bs) ≡ bs
unfolding word_bytes words
word_bytes-words k [] h bytes = refl
word_bytes-words k (a ∷ []) h bytes = absurd (omega arith)
word_bytes-words k (a ∷ b ∷ []) h bytes = absurd (omega arith)
word_bytes-words k (a ∷ b ∷ c ∷ []) h bytes = absurd (omega arith)
word_bytes-words zero (a ∷ b ∷ c ∷ d ∷ bs) h bytes = absurd (omega arith)
word_bytes-words (suc k) (a ∷ b ∷ c ∷ d ∷ bs) h (ha, (hb, (hc, (hd, rest)))) =
    ap (λ (l : List ℕ). l ++ word_bytes (words bs)) (to_le-from_le a b c d ha hb hc hd)
    ∙ ap (λ (l : List ℕ). a ∷ b ∷ c ∷ d ∷ l) (word_bytes-words k bs (omega arith) rest)

whole_words_lem :
    (src : List ℕ)
    → All IsByte src
    → (pad : ℕ) × (whole_words src ≡ src ++ replicate pad 0)
      × (pad < 4)
      × (k : ℕ) × (length (whole_words src) ≡ 4 * k)
      × All IsByte (whole_words src)
unfolding whole_words
whole_words_lem src bytes = elim (Bool-cases (length src % 4 == 0)) [
  | inl whole ↦
      let same : whole_words src ≡ src = rw (whole, whole_words) refl in
      (
        0,
        same ∙ sym (append-nil src),
        omega arith,
        length src / 4,
        rw same (ground arith),
        rw same bytes,
      )
  | inr short ↦
      let pad = 4 - length src % 4 in
      let zero_byte : ℕ = 0 in
      let same : whole_words src ≡ src ++ replicate pad 0 = rw (short, whole_words) refl in
      let len : length (src ++ replicate pad 0) ≡ length src + pad =
        length-append src (replicate pad 0)
        ∙ ap (λ (k : ℕ). length src + k) (length-replicate pad zero_byte) in
      (
        pad,
        same,
        ground arith,
        (length src + pad) / 4,
        rw same (omega (arith, len)),
        rw same (
            All-append IsByte src (replicate pad 0) bytes
              (All-replicate IsByte pad 0 (omega arith))),
      )
]

-- `$readmemh` of the file that mkflashhex.py writes for an image that fits gives the image and zeros up
-- to the size, so no entry is left as it was; for an image that does not fit no file is written.
pub flash_hex_lem :
    (size : ℕ) (src : List ℕ)
    → ((length src ≤ size)
        × (text : Text) × (flash_hex size src ≡ some text)
        × (read_hex 0 text ≡ src ++ replicate (size - length src) 0)
        × (length (read_hex 0 text) ≡ size))
      ⊎ ((size < length src) × (flash_hex size src ≡ none))
unfolding flash_hex
flash_hex_lem size src = elim (Bool-cases (ltb size (length src))) [
  | inr fits ↦
      let pad = size - length src in
      let zero_byte : ℕ = 0 in
      let room : length src ≤ size = ground arith in
      let text = byte_lines src ++ zero_lines (replicate pad 0) in
      let read : read_hex 0 text ≡ src ++ replicate pad 0 =
        read_hex-byte_lines src (zero_lines (replicate pad 0))
        ∙ ap (λ (l : List ℕ). src ++ l) (read_hex-zero_lines pad) in
      let lines : length (read_hex 0 text) ≡ size = omega (
        arith,
        ap length read,
        length-append src (replicate pad 0),
        length-replicate pad zero_byte,
      ) in
      inl (room, text, rw (fits, flash_hex) refl, read, lines)
  | inl large ↦ inr (ground arith, rw (large, flash_hex) refl)
]

-- For a source of bytes, `$readmemh` of the file that mkhex.py writes gives words whose bytes, the low
-- one first, are the source followed by fewer than four zeros.
pub word_hex_lem :
    (src : List ℕ)
    → All IsByte src
    → (pad : ℕ) × (word_bytes (read_hex 0 (word_hex src)) ≡ src ++ replicate pad 0) × (pad < 4)
unfolding word_hex
word_hex_lem src bytes =
    let (pad, whole, small, k, len, whole_bytes) = whole_words_lem src bytes in
    (
      pad,
      ap word_bytes (read_hex-word_lines (words (whole_words src)))
          ∙ word_bytes-words k (whole_words src) len whole_bytes
          ∙ whole,
      small,
    )
