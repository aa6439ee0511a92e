-- ===== src/Rvdis/Walk.antt =====
-- `walk` of tools/rvdis.py: the instructions of a buffer laid out at an address.
use koti.Base.{
  ℕ, zero, suc, ◌+◌, ◌-◌, Option, none, some, Bool, true, false, leb, ltb, ◌>>=◌, ◌&&◌, List, [],
  ◌∷◌, if◌then◌else◌, length, take, drop,
}
use koti.Base.Bytes.{from_le}
use koti.Base.Text.{Text}
use koti.Rvdis.Word.{Insn}
use koti.Rvdis.Decode.{decode, annotate}

-- `int.from_bytes(data[off:off + 4], "little")`.
unfoldable pub word_at : List ℕ → ℕ → ℕ
word_at bytes off = from_le (take 4 (drop off bytes))

-- `count is None or n < count`.
unfoldable pub in_count : ℕ → Option ℕ → Bool
in_count n none = true
in_count n (some c) = ltb n c

-- What is yielded at offset `off`.
unfoldable pub yield_at : List ℕ → ℕ → ℕ → Option (ℕ → Text) → Option Insn
yield_at bytes base off symfn = do
  ins ← decode (word_at bytes off) (base + off)
  some (record ins { text = annotate ins symfn })

-- The `while` loop with the variables `off` and `n`; `none` when the fuel runs out.
unfoldable pub walk_loop :
    ℕ → List ℕ → ℕ → Option ℕ → Option (ℕ → Text) → ℕ → ℕ → Option (List Insn)
walk_loop zero bytes base count symfn off n = none
walk_loop (suc fuel) bytes base count symfn off n =
    elim (leb (off + 4) (length bytes) && in_count n count) [
      | true ↦ do
        ins ← yield_at bytes base off symfn
        rest ← walk_loop fuel bytes base count symfn (off + 4) (n + 1)
        some (ins ∷ rest)
      | false ↦ some []
    ]

-- The offset where the walk starts, if it is inside the buffer.
unfoldable pub start_offset : List ℕ → ℕ → Option ℕ → Option ℕ
start_offset bytes base none = if leb (length bytes) 0 then none else some 0
start_offset bytes base (some start) =
    if ltb start base
    then none
    else if leb (length bytes) (start - base)
    then none
    else some (start - base)

unfoldable pub walk : List ℕ → ℕ → Option ℕ → Option ℕ → Option (ℕ → Text) → Option (List Insn)
walk bytes base start count symfn = elim (start_offset bytes base start) [
  | none ↦ some []
  | some off ↦ walk_loop (suc (length bytes)) bytes base count symfn off 0
]
