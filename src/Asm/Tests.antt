-- ===== src/Asm/Tests.antt =====
-- The round trips of the assembler and the disassembler at concrete inputs.
use koti.Base.{◌≡◌, refl, ◌^◌, arith, some, ◌++◌, [], false}
use koti.Base.Text.{lit, hex, text_eq}
use koti.Base.Int.{pos, negsuc, mask, ◌+ℤ◌}
use koti.Rvdis.Decode.{decode}
use koti.Rvdis.Tables
use koti.Rvdis.Tables.{entry, op_m}
use koti.Rvdis.System.{csr_name}
use koti.Asm.{add, or, mop, sub, lw, sw, addi, beq, jal, csrrw, csrrs, amo}
use koti.Asm.Decoded.{reg_name}
use koti.Asm.Encoded.{plain}
use koti.Asm.RoundTrip.{
  regs_text, offset_text, addi_text, decode-register, decode-memory, decode-addi, csr_text,
  decode-csrrw, decode-amo,
}
use koti.Asm.Branches.{decode-beq, decode-jal}

divu_named : entry op_m 5 ≡ some (lit "divu")
unfolding entry
divu_named = refl

decode-register_example :
    (decode (add 10 11 12) 64 ≡ plain 64 (add 10 11 12) (regs_text (lit "add") 10 11 12))
    × (decode (or 10 11 12) 64 ≡ plain 64 (or 10 11 12) (regs_text (lit "or") 10 11 12))
    × (decode (mop 5 10 11 12) 64 ≡ plain 64 (mop 5 10 11 12) (regs_text (lit "divu") 10 11 12))
    × (decode (sub 10 11 12) 64 ≡ plain 64 (sub 10 11 12) (regs_text (lit "sub") 10 11 12))
decode-register_example =
    decode-register 10 11 12 5 64 (lit "divu") (omega arith) (omega arith) (omega arith)
      (omega arith) divu_named

decode-memory_example :
    (decode (lw 10 11 (negsuc 2)) 0
      ≡ plain 0 (lw 10 11 (negsuc 2)) (offset_text (lit "lw") 10 (negsuc 2) 11))
    × (decode (sw 10 11 (negsuc 2)) 0
        ≡ plain 0 (sw 10 11 (negsuc 2)) (offset_text (lit "sw") 10 (negsuc 2) 11))
decode-memory_example = decode-memory 10 11 0 (negsuc 2) (omega arith) (omega arith) (omega arith)

decode-addi_example :
    decode (addi 5 6 (pos 100)) 0 ≡ plain 0 (addi 5 6 (pos 100)) (addi_text 5 6 (pos 100))
decode-addi_example = decode-addi 5 6 0 (pos 100) (omega arith) (omega arith) (omega arith)

decode-csrrw_example :
    (decode (csrrw 5 0x305 6) 0
      ≡ plain 0 (csrrw 5 0x305 6) (csr_text (lit "csrw") (lit "csrrw") 5 0x305 6))
    × (decode (csrrs 5 0x305 6) 0
        ≡ plain 0 (csrrs 5 0x305 6) (csr_text (lit "csrs") (lit "csrrs") 5 0x305 6))
decode-csrrw_example = decode-csrrw 5 0x305 6 0 (omega arith) (omega arith) (omega arith)

decode-beq_example :
    decode (beq 5 6 (negsuc 7)) 0x100
    ≡ some (record {
      pc = 0x100;
      word = beq 5 6 (negsuc 7);
      text =
          lit "beq"
          ++ lit " "
          ++ reg_name 5
          ++ lit ","
          ++ reg_name 6
          ++ lit ","
          ++ hex (mask (pos 0x100 +ℤ negsuc 7) (2 ^ 32));
      target = some (mask (pos 0x100 +ℤ negsuc 7) (2 ^ 32));
    })
decode-beq_example =
    decode-beq 5 6 0x100 (negsuc 7) (omega arith) (omega arith) (omega arith) (unfold mask in refl)

decode-jal_example :
    decode (jal 5 (pos 0xffc)) 0
    ≡ some (record {
      pc = 0;
      word = jal 5 (pos 0xffc);
      text = lit "jal " ++ reg_name 5 ++ lit "," ++ hex (mask (pos 0 +ℤ pos 0xffc) (2 ^ 32));
      target = some (mask (pos 0 +ℤ pos 0xffc) (2 ^ 32));
    })
decode-jal_example = decode-jal 5 0 (pos 0xffc) (omega arith) (omega arith) (unfold mask in refl)

amoxor_named :
    (entry Tables.amo 4 ≡ some (lit "amoxor.w")) × (text_eq (lit "amoxor.w") (lit "lr.w") ≡ false)
unfolding entry text_eq lit
amoxor_named = (refl, refl)

decode-amo_example :
    decode (amo 4 10 11 12) 0
    ≡ plain 0 (amo 4 10 11 12) (
        lit "amoxor.w"
        ++ []
        ++ lit " "
        ++ reg_name 10
        ++ lit ","
        ++ reg_name 12
        ++ lit ",("
        ++ reg_name 11
        ++ lit ")")
decode-amo_example =
    decode-amo 4 10 11 12 0 (lit "amoxor.w") (omega arith) (omega arith) (omega arith) (omega arith)
      amoxor_named.0 amoxor_named.1
