-- ===== src/Ktrace/Image.antt =====
-- `Image` of tools/ktrace.py: the kernel by virtual address. Addresses are natural numbers; the bytes
-- are those of the file.
use koti.Base.{
  ℕ, ◌+◌, ◌-◌, Option, none, some, ltb, ◌>>=◌, ◌||◌, List, [], ◌++◌, if◌then◌else◌, length,
}
use koti.Base.Text.{Text, lit, hex8}
use koti.Rvdis.Decode.{disasm}
use koti.Rvdis.Walk.{word_at}

pub record Image : Type 0 where
  pub bytes : List ℕ
  pub load_va : ℕ

unfoldable pub word : Image → ℕ → Option ℕ
word img va =
    if ltb va img.load_va || ltb (length img.bytes) (va - img.load_va + 4)
    then none
    else some (word_at img.bytes (va - img.load_va))

-- The outer `none` is an exception of the disassembler.
unfoldable pub show : Image → ℕ → Option (ℕ → Text) → Option Text
show img va symfn = elim (word img va) [
  | none ↦ some []
  | some w ↦ do text ← disasm w va symfn; some (hex8 w ++ lit "  " ++ text)
]
