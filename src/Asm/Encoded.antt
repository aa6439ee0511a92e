-- ===== src/Asm/Encoded.antt =====
-- The words of the assembler are 32-bit instructions with the fields that it was given, and their
-- immediates read back.
use koti.Base.{ℕ, ◌*◌, ◌/◌, ◌%◌, ◌^◌, ◌<◌, ◌≡◌, ◌∙◌, refl, arith, Option, some, none}
use koti.Base.Text.{Text}
use koti.Base.Bits.{or_add, bit_or}
use native.Mathlib.Nat.{mod-lt}
use koti.Base.Int.{ℤ, pos, negsuc, mask}
use koti.Rvdis.Word.{Insn, imm_i, imm_s}
use koti.Rvdis.Extend.{Fits, sext-mask}
use koti.Asm.{r_type, i_type, sw, amo}
use koti.Asm.Layout.{r_type-sum, i_type-sum, amo-sum}
use koti.Asm.Decoded.{IsEncoded}

-- An instruction with no target, as `decode` returns it.
abbrev pub plain : ℕ → ℕ → Text → Option Insn
plain pc w t = some (record { pc = pc; word = w; text = t; target = none })

pub r_type-IsEncoded :
    (f7 rs2 rs1 f3 rd op : ℕ)
    → f7 < 128
    → rs2 < 32
    → rs1 < 32
    → f3 < 8
    → rd < 32
    → op < 128
    → op % 4 ≡ 3
    → IsEncoded
        (r_type f7 rs2 rs1 f3 rd op)
        (record { op = op; rd = rd; rs1 = rs1; rs2 = rs2; f3 = f3; f7 = f7 })
r_type-IsEncoded f7 rs2 rs1 f3 rd op h7 h2 h1 h3 hd ho wide =
    rw (r_type-sum f7 rs2 rs1 f3 rd op h2 h1 h3 hd ho) (omega arith)

pub i_type-IsEncoded :
    (imm rs1 f3 rd op : ℕ)
    → imm < 2 ^ 12
    → rs1 < 32
    → f3 < 8
    → rd < 32
    → op < 128
    → op % 4 ≡ 3
    → IsEncoded
        (i_type imm rs1 f3 rd op)
        (record { op = op; rd = rd; rs1 = rs1; rs2 = imm % 32; f3 = f3; f7 = imm / 32 })
i_type-IsEncoded imm rs1 f3 rd op hi h1 h3 hd ho wide =
    rw (i_type-sum imm rs1 f3 rd op h1 h3 hd ho) (omega arith)

pub mask-lt : (z : ℤ) (m : ℕ) → 0 < m → mask z m < m
unfolding mask
mask-lt (pos n) m h = mod-lt n h
mask-lt (negsuc n) m h = omega arith

pub imm_i-i_type :
    (imm : ℤ) (rs1 f3 rd op : ℕ)
    → Fits 11 imm
    → rs1 < 32
    → f3 < 8
    → rd < 32
    → op < 128
    → imm_i (i_type (mask imm (2 ^ 12)) rs1 f3 rd op) ≡ imm
unfolding imm_i
imm_i-i_type imm rs1 f3 rd op fits h1 h3 hd ho =
    let shifted : i_type (mask imm (2 ^ 12)) rs1 f3 rd op / 2 ^ 20 ≡ mask imm (2 ^ 12) =
      rw (i_type-sum (mask imm (2 ^ 12)) rs1 f3 rd op h1 h3 hd ho) (omega arith) in
    rw shifted (sext-mask 11 imm fits)

pub imm_s-sw :
    (rs2 rs1 : ℕ) (imm : ℤ) → Fits 11 imm → rs2 < 32 → rs1 < 32 → imm_s (sw rs2 rs1 imm) ≡ imm
unfolding imm_s sw
imm_s-sw rs2 rs1 imm fits h2 h1 =
    let m = mask imm (2 ^ 12) in
    let below : m < 2 ^ 12 = mask-lt imm (2 ^ 12) (omega arith) in
    let sum =
      r_type-sum (m / 2 ^ 5) rs2 rs1 2 (m % 2 ^ 5) 0x23 h2 h1 (omega arith) (omega arith)
        (omega arith) in
    let joined : bit_or (m / 2 ^ 5 * 2 ^ 5) (m % 2 ^ 5) ≡ m =
      or_add 5 (m / 2 ^ 5) _ _ refl (omega arith) ∙ omega arith in
    let high : r_type (m / 2 ^ 5) rs2 rs1 2 (m % 2 ^ 5) 0x23 / 2 ^ 25 % 2 ^ 7 ≡ m / 2 ^ 5 =
      rw sum (omega arith) in
    let low : r_type (m / 2 ^ 5) rs2 rs1 2 (m % 2 ^ 5) 0x23 / 2 ^ 7 % 2 ^ 5 ≡ m % 2 ^ 5 =
      rw sum (omega arith) in
    rw (high, low, joined) (sext-mask 11 imm fits)

pub amo-IsEncoded :
    (f5 rd rs1 rs2 : ℕ)
    → f5 < 32
    → rd < 32
    → rs1 < 32
    → rs2 < 32
    → IsEncoded
        (amo f5 rd rs1 rs2)
        (record { op = 0x2f; rd = rd; rs1 = rs1; rs2 = rs2; f3 = 2; f7 = f5 * 4 })
amo-IsEncoded f5 rd rs1 rs2 h5 hd h1 h2 = rw (amo-sum f5 rd rs1 rs2 hd h1 h2) (omega arith)
