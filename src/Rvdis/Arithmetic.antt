-- ===== src/Rvdis/Arithmetic.antt =====
-- The arithmetic cases of `decode` in tools/rvdis.py: LUI, AUIPC, OP-IMM and OP.
use koti.Base.{Option, not, ◌==◌, ◌&&◌, ◌||◌, ◌>>=◌, if◌then◌else◌, ◌++◌}
use koti.Base.Int.{ℤ, pos, negsuc, eq_ℤ}
use koti.Base.Bits.{◌>>◌, low_bits}
use koti.Base.Text.{Text, lit, hex, dec_ℤ}
use koti.Rvdis.Tables.{op_imm, op, op_m, entry, has_entry}
use koti.Rvdis.Word.{Insn, Locals, insn, bad, imm_i}

-- `lui` and `auipc`, by their name.
unfoldable pub decode_upper : Text → Locals → Option Insn
decode_upper name l =
    insn l (name ++ lit " " ++ l.d ++ lit ",0x" ++ hex (low_bits (l.word >> 12) 20))

-- The pseudo-instructions of OP-IMM, in the order in which they are tried.
unfoldable pub op_imm_text : Locals → ℤ → Option Insn
op_imm_text l imm =
    if (l.f3 == 0) && (l.rd == 0) && (l.rs1 == 0) && eq_ℤ imm (pos 0)
    then insn l (lit "nop")
    else if (l.f3 == 0) && (l.rs1 == 0)
    then insn l (lit "li " ++ l.d ++ lit "," ++ dec_ℤ imm)
    else if (l.f3 == 0) && eq_ℤ imm (pos 0)
    then insn l (lit "mv " ++ l.d ++ lit "," ++ l.s1)
    else if (l.f3 == 4) && eq_ℤ imm (negsuc 0)
    then insn l (lit "not " ++ l.d ++ lit "," ++ l.s1)
    else if (l.f3 == 3) && eq_ℤ imm (pos 1)
    then insn l (lit "seqz " ++ l.d ++ lit "," ++ l.s1)
    else if (l.f3 == 7) && eq_ℤ imm (pos 255)
    then insn l (lit "zext.b " ++ l.d ++ lit "," ++ l.s1)
    else do
      m ← entry op_imm l.f3
      insn l (m ++ lit " " ++ l.d ++ lit "," ++ l.s1 ++ lit "," ++ dec_ℤ imm)

unfoldable pub decode_op_imm : Locals → Option Insn
decode_op_imm l =
    if (l.f3 == 1) && (l.f7 == 0x00)
    then insn l (lit "slli " ++ l.d ++ lit "," ++ l.s1 ++ lit ",0x" ++ hex l.rs2)
    else if (l.f3 == 5) && ((l.f7 == 0x00) || (l.f7 == 0x20))
    then insn l (
        (if l.f7 == 0x20 then lit "srai" else lit "srli")
        ++ lit " "
        ++ l.d
        ++ lit ","
        ++ l.s1
        ++ lit ",0x"
        ++ hex l.rs2)
    else if not (has_entry op_imm l.f3)
    then bad l
    else op_imm_text l (imm_i l.word)

-- A name and three registers.
unfoldable pub three_regs : Locals → Text → Option Insn
three_regs l m = insn l (m ++ lit " " ++ l.d ++ lit "," ++ l.s1 ++ lit "," ++ l.s2)

unfoldable pub decode_op : Locals → Option Insn
decode_op l =
    if l.f7 == 0x01
    then (do m ← entry op_m l.f3; three_regs l m)
    else if (l.f7 == 0x20) && ((l.f3 == 0) || (l.f3 == 5))
    then if (l.f3 == 0) && (l.rs1 == 0)
      then insn l (lit "neg " ++ l.d ++ lit "," ++ l.s2)
      else three_regs l (if l.f3 == 0 then lit "sub" else lit "sra")
    else if not (l.f7 == 0x00)
    then bad l
    else if (l.f3 == 3) && (l.rs1 == 0)
    then insn l (lit "snez " ++ l.d ++ lit "," ++ l.s2)
    else (do m ← entry op l.f3; three_regs l m)
