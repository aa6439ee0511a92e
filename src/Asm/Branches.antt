-- ===== src/Asm/Branches.antt =====
-- Branch and jump targets: the offset that the assembler cuts into pieces is the one that
-- tools/rvdis.py adds to the pc.
use koti.Base.{
  ℕ, ◌+◌, ◌*◌, ◌/◌, ◌%◌, ◌^◌, ◌<◌, ◌≡◌, ◌∙◌, refl, arith, true, some, true, ◌++◌, ◌==◌,
  if◌then◌else◌,
}
use koti.Base.Text.{lit, hex, text_eq}
use koti.Base.Bits.{or_next, bit_or}
use koti.Base.Int.{ℤ, pos, negsuc, mask, ◌+ℤ◌}
use koti.Rvdis.Word.{imm_b, imm_j, jump_target}
use koti.Rvdis.Extend.{Fits, sext-mask}
use koti.Rvdis.Decode.{decode, decode_opcode}
use koti.Rvdis.Flow.{decode_jal, decode_branch, has_zero_form}
use koti.Rvdis.Tables.{entry, has_entry}
use koti.Asm.{beq, jal}
use koti.Asm.Layout.{beq-sum, jal-sum}
use koti.Asm.Decoded.{reg_name, IsEncoded, decode-named}
use koti.Asm.Encoded.{mask-lt}

abbrev pub IsEven : ℤ → Type 0
IsEven z = mask z 2 ≡ 0

mask-IsEven : (z : ℤ) → IsEven z → (mask z (2 ^ 13) % 2 ≡ 0) × (mask z (2 ^ 21) % 2 ≡ 0)
unfolding mask
mask-IsEven (pos n) e = omega arith
mask-IsEven (negsuc n) e = omega arith

beq-IsEncoded :
    (rs1 rs2 : ℕ) (off : ℤ)
    → rs1 < 32
    → rs2 < 32
    → IsEncoded (beq rs1 rs2 off) (record {
      op = 0x63;
      rd = mask off (2 ^ 13) / 2 % 2 ^ 4 * 2 + mask off (2 ^ 13) / 2 ^ 11 % 2;
      rs1 = rs1;
      rs2 = rs2;
      f3 = 0;
      f7 = mask off (2 ^ 13) / 2 ^ 12 * 2 ^ 6 + mask off (2 ^ 13) / 2 ^ 5 % 2 ^ 6;
    })
beq-IsEncoded rs1 rs2 off h1 h2 =
    let below = mask-lt off (2 ^ 13) (omega arith) in
    rw (beq-sum rs1 rs2 off (mask off (2 ^ 13)) refl h1 h2) (omega arith)

imm_b-beq :
    (rs1 rs2 : ℕ) (off : ℤ)
    → rs1 < 32
    → rs2 < 32
    → Fits 12 off
    → IsEven off
    → imm_b (beq rs1 rs2 off) ≡ off
unfolding imm_b
imm_b-beq rs1 rs2 off h1 h2 fits even =
    let m = mask off (2 ^ 13) in
    let below : m < 2 ^ 13 = mask-lt off (2 ^ 13) (omega arith) in
    let m_even : m % 2 ≡ 0 = (mask-IsEven off even).0 in
    let hi = m / 2 ^ 12 in
    let b11 = m / 2 ^ 11 % 2 in
    let mid = m / 2 ^ 5 % 2 ^ 6 in
    let lo = m / 2 % 2 ^ 4 in
    let sum = beq-sum rs1 rs2 off m refl h1 h2 in
    let at_12 : beq rs1 rs2 off / 2 ^ 31 % 2 ^ 1 ≡ hi = rw sum (omega arith) in
    let at_11 : beq rs1 rs2 off / 2 ^ 7 % 2 ^ 1 ≡ b11 = rw sum (omega arith) in
    let at_5 : beq rs1 rs2 off / 2 ^ 25 % 2 ^ 6 ≡ mid = rw sum (omega arith) in
    let at_1 : beq rs1 rs2 off / 2 ^ 8 % 2 ^ 4 ≡ lo = rw sum (omega arith) in
    let two = or_next 12 hi {r = b11 * 2 ^ 11} refl refl (omega arith) in
    let three = or_next 11 (hi * 2 + b11) {r = mid * 2 ^ 5} two (omega arith) (omega arith) in
    let joined : bit_or (bit_or (bit_or (hi * 2 ^ 12) (b11 * 2 ^ 11)) (mid * 2 ^ 5)) (lo * 2 ^ 1)
        ≡ m =
      or_next 5 (hi * 2 ^ 7 + b11 * 2 ^ 6 + mid) {r = lo * 2 ^ 1} three (omega arith) (omega arith)
      ∙ omega arith in
    rw (at_12, at_11, at_5, at_1, joined) (sext-mask 12 off fits)

beq_has_zero_form : has_zero_form (lit "beq") ≡ true
unfolding has_zero_form text_eq lit
beq_has_zero_form = refl

-- For registers below 32 and an even offset that fits 13 signed bits, `beq` decodes to a branch on
-- those registers whose target is the pc plus the offset, modulo 2 ^ 32; against the zero register it
-- is printed as `beqz`.
pub decode-beq :
    (rs1 rs2 pc : ℕ) (off : ℤ)
    → rs1 < 32
    → rs2 < 32
    → Fits 12 off
    → IsEven off
    → let tgt = mask (pos pc +ℤ off) (2 ^ 32) in
      decode (beq rs1 rs2 off) pc
      ≡ some (record {
        pc = pc;
        word = beq rs1 rs2 off;
        text =
            if rs2 == 0
            then lit "beq" ++ lit "z " ++ reg_name rs1 ++ lit "," ++ hex tgt
            else lit "beq"
              ++ lit " "
              ++ reg_name rs1
              ++ lit ","
              ++ reg_name rs2
              ++ lit ","
              ++ hex tgt;
        target = some tgt;
      })
unfolding decode_opcode decode_branch entry has_entry jump_target
decode-beq rs1 rs2 pc off h1 h2 fits even =
    rw
      (decode-named pc _ _ (beq-IsEncoded rs1 rs2 off h1 h2), imm_b-beq rs1 rs2 off h1 h2 fits even)
      (ground (arith, beq_has_zero_form))

jal-IsEncoded :
    (rd : ℕ) (imm : ℤ)
    → rd < 32
    → let m = mask imm (2 ^ 21) in
      IsEncoded (jal rd imm) (record {
        op = 0x6f;
        rd = rd;
        rs1 = m / 2 ^ 15 % 2 ^ 5;
        rs2 = m / 2 % 2 ^ 4 * 2 + m / 2 ^ 11 % 2;
        f3 = m / 2 ^ 12 % 2 ^ 3;
        f7 = m / 2 ^ 20 * 2 ^ 6 + m / 2 ^ 5 % 2 ^ 6;
      })
jal-IsEncoded rd imm h =
    let below = mask-lt imm (2 ^ 21) (omega arith) in
    rw (jal-sum rd imm (mask imm (2 ^ 21)) refl h) (omega arith)

imm_j-jal : (rd : ℕ) (imm : ℤ) → rd < 32 → Fits 20 imm → IsEven imm → imm_j (jal rd imm) ≡ imm
unfolding imm_j
imm_j-jal rd imm h fits even =
    let m = mask imm (2 ^ 21) in
    let below : m < 2 ^ 21 = mask-lt imm (2 ^ 21) (omega arith) in
    let m_even : m % 2 ≡ 0 = (mask-IsEven imm even).1 in
    let hi = m / 2 ^ 20 in
    let mid = m / 2 ^ 12 % 2 ^ 8 in
    let b11 = m / 2 ^ 11 % 2 in
    let lo = m / 2 % 2 ^ 10 in
    let sum = jal-sum rd imm m refl h in
    let at_20 : jal rd imm / 2 ^ 31 % 2 ^ 1 ≡ hi = rw sum (omega arith) in
    let at_12 : jal rd imm / 2 ^ 12 % 2 ^ 8 ≡ mid = rw sum (omega arith) in
    let at_11 : jal rd imm / 2 ^ 20 % 2 ^ 1 ≡ b11 = rw sum (omega arith) in
    let at_1 : jal rd imm / 2 ^ 21 % 2 ^ 10 ≡ lo = rw sum (omega arith) in
    let two = or_next 20 hi {r = mid * 2 ^ 12} refl refl (omega arith) in
    let three = or_next 12 (hi * 2 ^ 8 + mid) {r = b11 * 2 ^ 11} two (omega arith) (omega arith) in
    let joined : bit_or (bit_or (bit_or (hi * 2 ^ 20) (mid * 2 ^ 12)) (b11 * 2 ^ 11)) (lo * 2 ^ 1)
        ≡ m =
      or_next 11 (hi * 2 ^ 9 + mid * 2 + b11) {r = lo * 2 ^ 1} three (omega arith) (omega arith)
      ∙ omega arith in
    rw (at_20, at_12, at_11, at_1, joined) (sext-mask 20 imm fits)

-- For a register below 32 and an even offset that fits 21 signed bits, `_jal` decodes to a jump whose
-- target is the pc plus the offset, modulo 2 ^ 32; the link register is printed only where it is
-- neither the zero register, which is `j`, nor `ra`.
pub decode-jal :
    (rd pc : ℕ) (imm : ℤ)
    → rd < 32
    → Fits 20 imm
    → IsEven imm
    → let tgt = mask (pos pc +ℤ imm) (2 ^ 32) in
      decode (jal rd imm) pc
      ≡ some (record {
        pc = pc;
        word = jal rd imm;
        text =
            if rd == 0
            then lit "j " ++ hex tgt
            else if rd == 1
            then lit "jal " ++ hex tgt
            else lit "jal " ++ reg_name rd ++ lit "," ++ hex tgt;
        target = some tgt;
      })
unfolding decode_opcode decode_jal jump_target
decode-jal rd pc imm h fits even =
    rw (decode-named pc _ _ (jal-IsEncoded rd imm h), imm_j-jal rd imm h fits even) (ground arith)
