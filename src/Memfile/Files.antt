-- ===== src/Memfile/Files.antt =====
-- The `$readmemh` files of fpga/ulx3s/mkflashhex.py, a byte to a line, and of test/mkhex.py, a word to a line.
-- A file of bytes is the list of its bytes.
use koti.Base.{
  ℕ, ◌-◌, ◌%◌, Option, none, some, ltb, ◌==◌, List, [], ◌∷◌, ◌++◌, if◌then◌else◌, length, replicate,
}
use koti.Base.Text.{Text, hex2, hex8}
use koti.Card.Words.{words}

-- `f.writelines(f"{b:02x}\n" for b in src)`.
unfoldable pub byte_lines : List ℕ → Text
byte_lines [] = []
byte_lines (b ∷ src) = hex2 b ++ (10 ∷ byte_lines src)

-- `f.writelines("00\n" for _ in range(n))`, as the lines of that many zeros.
unfoldable pub zero_lines : List ℕ → Text
zero_lines [] = []
zero_lines (b ∷ bs) = b'0' ∷ b'0' ∷ 10 ∷ zero_lines bs

-- The file that `main` writes; `none` is its exit code 1.
unfoldable pub flash_hex : ℕ → List ℕ → Option Text
flash_hex size src =
    if ltb size (length src)
    then none
    else some (byte_lines src ++ zero_lines (replicate (size - length src) 0))

-- `src += b"\x00" * (4 - len(src) % 4)` for a short tail.
unfoldable pub whole_words : List ℕ → List ℕ
whole_words src = if length src % 4 == 0 then src else src ++ replicate (4 - length src % 4) 0

unfoldable pub word_lines : List ℕ → Text
word_lines [] = []
word_lines (w ∷ ws) = hex8 w ++ (10 ∷ word_lines ws)

-- The file that test/mkhex.py writes.
unfoldable pub word_hex : List ℕ → Text
word_hex src = word_lines (words (whole_words src))
