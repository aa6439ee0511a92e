-- ===== src/Rvdis/Flow.antt =====
-- The control-flow cases of `decode` in tools/rvdis.py: JAL, JALR and the branches.
use koti.Base.{Option, Bool, not, ◌==◌, ◌&&◌, ◌||◌, ◌>>=◌, if◌then◌else◌, ◌++◌}
use koti.Base.Int.{pos, eq_ℤ}
use koti.Base.Text.{Text, lit, hex, dec_ℤ, text_eq}
use koti.Rvdis.Tables.{branch, entry, has_entry}
use koti.Rvdis.Word.{Insn, Locals, insn, jump, bad, imm_i, imm_b, imm_j, jump_target}

unfoldable pub decode_jal : Locals → Option Insn
decode_jal l =
    let imm = imm_j l.word in
    let tgt = jump_target l.pc imm in
    if l.rd == 0
    then jump l (lit "j " ++ hex tgt) tgt
    else if l.rd == 1
    then jump l (lit "jal " ++ hex tgt) tgt
    else jump l (lit "jal " ++ l.d ++ lit "," ++ hex tgt) tgt

unfoldable pub decode_jalr : Locals → Option Insn
decode_jalr l =
    let imm = imm_i l.word in
    if (l.rd == 0) && (l.rs1 == 1) && eq_ℤ imm (pos 0)
    then insn l (lit "ret")
    else if l.rd == 0
    then insn l (
        if eq_ℤ imm (pos 0)
        then lit "jr " ++ l.s1
        else lit "jr " ++ dec_ℤ imm ++ lit "(" ++ l.s1 ++ lit ")")
    else if (l.rd == 1) && eq_ℤ imm (pos 0)
    then insn l (lit "jalr " ++ l.s1)
    else insn l (lit "jalr " ++ l.d ++ lit "," ++ dec_ℤ imm ++ lit "(" ++ l.s1 ++ lit ")")

-- `m in ("beq", "bne", "blt", "bge")`.
unfoldable pub has_zero_form : Text → Bool
has_zero_form m =
    text_eq m (lit "beq") || text_eq m (lit "bne") || text_eq m (lit "blt") || text_eq m (lit "bge")

unfoldable pub decode_branch : Locals → Option Insn
decode_branch l = if not (has_entry branch l.f3) then bad l else do
  let imm = imm_b l.word
  let tgt = jump_target l.pc imm
  m ← entry branch l.f3
  if (l.rs2 == 0) && has_zero_form m
      then jump l (m ++ lit "z " ++ l.s1 ++ lit "," ++ hex tgt) tgt
      else jump l (m ++ lit " " ++ l.s1 ++ lit "," ++ l.s2 ++ lit "," ++ hex tgt) tgt
