-- ===== src/Memfile/Tests.antt =====
-- The theorems on the memory images at a source of five bytes.
use koti.Base.{
  ℕ, ◌-◌, ◌≤◌, ◌<◌, ◌≡◌, ◌⊎◌, arith, some, none, List, [], ◌∷◌, ◌++◌, length, replicate,
}
use koti.Base.Text.{Text}
use koti.Memfile.Files.{flash_hex, word_hex}
use koti.Memfile.Read.{read_hex, word_bytes, flash_hex_lem, word_hex_lem}

abbrev source : List ℕ
source = 19 ∷ 0 ∷ 255 ∷ 16 ∷ 7 ∷ []

flash_hex_lem_example :
    ((length source ≤ 8)
      × (text : Text) × (flash_hex 8 source ≡ some text)
      × (read_hex 0 text ≡ source ++ replicate (8 - length source) 0)
      × (length (read_hex 0 text) ≡ 8))
    ⊎ ((8 < length source) × (flash_hex 8 source ≡ none))
flash_hex_lem_example = flash_hex_lem 8 source

word_hex_lem_example :
    (pad : ℕ) × (word_bytes (read_hex 0 (word_hex source)) ≡ source ++ replicate pad 0) × (pad < 4)
word_hex_lem_example =
    word_hex_lem source
      (omega arith, (omega arith, (omega arith, (omega arith, (omega arith, tt)))))
