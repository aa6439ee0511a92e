-- ===== src/Rvdis/Memory.antt =====
-- The memory cases of `decode` in tools/rvdis.py: LOAD, STORE, MISC-MEM and AMO.
use koti.Base.{ℕ, Option, none, some, not, ◌==◌, ◌>>=◌, if◌then◌else◌, ◌++◌}
use koti.Base.Bits.{◌>>◌, low_bits}
use koti.Base.Text.{Text, lit, dec_ℤ, text_eq, repeat_text}
use koti.Rvdis.Tables.{load, store, amo, entry, has_entry}
use koti.Rvdis.Word.{Insn, Locals, insn, bad, imm_i, imm_s}

unfoldable pub decode_load : Locals → Option Insn
decode_load l = if not (has_entry load l.f3) then bad l else do
  m ← entry load l.f3
  insn l (m ++ lit " " ++ l.d ++ lit "," ++ dec_ℤ (imm_i l.word) ++ lit "(" ++ l.s1 ++ lit ")")

unfoldable pub decode_store : Locals → Option Insn
decode_store l = if not (has_entry store l.f3) then bad l else do
  let imm = imm_s l.word
  m ← entry store l.f3
  insn l (m ++ lit " " ++ l.s2 ++ lit "," ++ dec_ℤ imm ++ lit "(" ++ l.s1 ++ lit ")")

unfoldable pub decode_fence : Locals → Option Insn
decode_fence l =
    if l.f3 == 1 then insn l (lit "fence.i") else if l.f3 == 0 then insn l (lit "fence") else bad l

-- The `.aq` and `.rl` suffixes of the two ordering bits.
unfoldable pub ordering_suffix : ℕ → Text
ordering_suffix f7 =
    repeat_text (low_bits (f7 >> 1) 1) (lit ".aq") ++ repeat_text (low_bits f7 1) (lit ".rl")

unfoldable pub amo_text : Locals → Text → Option Insn
amo_text l name =
    if text_eq name (lit "lr.w")
    then insn l
        (lit "lr.w" ++ ordering_suffix l.f7 ++ lit " " ++ l.d ++ lit ",(" ++ l.s1 ++ lit ")")
    else insn l (
        name
        ++ ordering_suffix l.f7
        ++ lit " "
        ++ l.d
        ++ lit ","
        ++ l.s2
        ++ lit ",("
        ++ l.s1
        ++ lit ")")

unfoldable pub decode_amo : Locals → Option Insn
decode_amo l =
    if not (l.f3 == 2)
    then bad l
    else elim (entry amo (l.f7 >> 2)) [ none ↦ bad l | some name ↦ amo_text l name ]
