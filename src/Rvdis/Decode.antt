-- ===== src/Rvdis/Decode.antt =====
-- `decode` and `disasm` of tools/rvdis.py. `none` would be an exception; the opcodes are tried in the
-- order of the source.
use koti.Base.{ℕ, ◌%◌, ◌^◌, Option, none, some, not, ◌==◌, ◌&&◌, ◌>>=◌, if◌then◌else◌, ◌++◌}
use koti.Base.Text.{Text, lit, hex8}
use koti.Rvdis.Word.{Insn, Locals, insn, bad, locals, is_uncompressed}
use koti.Rvdis.Flow.{decode_jal, decode_jalr, decode_branch}
use koti.Rvdis.Arithmetic.{decode_upper, decode_op_imm, decode_op}
use koti.Rvdis.Memory.{decode_load, decode_store, decode_fence, decode_amo}
use koti.Rvdis.System.{decode_system}

unfoldable pub decode_opcode : Locals → Option Insn
decode_opcode l =
    if l.op == 0x37
    then decode_upper (lit "lui") l
    else if l.op == 0x17
    then decode_upper (lit "auipc") l
    else if l.op == 0x6f
    then decode_jal l
    else if (l.op == 0x67) && (l.f3 == 0)
    then decode_jalr l
    else if l.op == 0x63
    then decode_branch l
    else if l.op == 0x03
    then decode_load l
    else if l.op == 0x23
    then decode_store l
    else if l.op == 0x13
    then decode_op_imm l
    else if l.op == 0x33
    then decode_op l
    else if l.op == 0x0f
    then decode_fence l
    else if l.op == 0x2f
    then decode_amo l
    else if l.op == 0x73
    then decode_system l
    else bad l

unfoldable pub decode : ℕ → ℕ → Option Insn
decode word pc = do
  l ← locals (word % 2 ^ 32) pc
  if not (is_uncompressed l.word)
      then insn l (lit ".word 0x" ++ hex8 l.word ++ lit "  # not a 32-bit insn")
      else decode_opcode l

-- The text of an instruction, with its target's symbol where there is one and a resolver is given.
unfoldable pub annotate : Insn → Option (ℕ → Text) → Text
annotate ins none = ins.text
annotate ins (some symfn) = elim ins.target [
  | none ↦ ins.text
  | some t ↦ ins.text ++ lit " <" ++ symfn t ++ lit ">"
]

unfoldable pub disasm : ℕ → ℕ → Option (ℕ → Text) → Option Text
disasm word pc symfn = do ins ← decode word pc; some (annotate ins symfn)
