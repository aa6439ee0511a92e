-- ===== src/Asm/Layout.antt =====
-- The words of the assembler as sums: the fields that it joins by `|` never overlap.
use koti.Base.{ℕ, ◌+◌, ◌*◌, ◌/◌, ◌%◌, ◌^◌, ◌<◌, ◌≡◌, refl, arith}
use koti.Base.Bits.{or_next}
use koti.Base.Int.{ℤ, mask}
use koti.Asm.{r_type, i_type, beq, amo, jal}

pub i_type-sum :
    (imm rs1 f3 rd op : ℕ)
    → rs1 < 32
    → f3 < 8
    → rd < 32
    → op < 128
    → i_type imm rs1 f3 rd op ≡ imm * 2 ^ 20 + rs1 * 2 ^ 15 + f3 * 2 ^ 12 + rd * 2 ^ 7 + op
unfolding i_type
i_type-sum imm rs1 f3 rd op h1 h2 h3 h4 =
    let at_15 = or_next 20 imm {r = rs1 * 2 ^ 15} refl refl (omega arith) in
    let at_12 =
      or_next 15 (imm * 2 ^ 5 + rs1) {r = f3 * 2 ^ 12} at_15 (omega arith) (omega arith) in
    let at_7 =
      or_next 12 (imm * 2 ^ 8 + rs1 * 2 ^ 3 + f3) {r = rd * 2 ^ 7} at_12 (omega arith)
        (omega arith) in
    or_next 7 (imm * 2 ^ 13 + rs1 * 2 ^ 8 + f3 * 2 ^ 5 + rd) at_7 (omega arith) (omega arith)

pub r_type-sum :
    (f7 rs2 rs1 f3 rd op : ℕ)
    → rs2 < 32
    → rs1 < 32
    → f3 < 8
    → rd < 32
    → op < 128
    → r_type f7 rs2 rs1 f3 rd op
      ≡ f7 * 2 ^ 25 + rs2 * 2 ^ 20 + rs1 * 2 ^ 15 + f3 * 2 ^ 12 + rd * 2 ^ 7 + op
unfolding r_type
r_type-sum f7 rs2 rs1 f3 rd op h0 h1 h2 h3 h4 =
    let at_20 = or_next 25 f7 {r = rs2 * 2 ^ 20} refl refl (omega arith) in
    let at_15 =
      or_next 20 (f7 * 2 ^ 5 + rs2) {r = rs1 * 2 ^ 15} at_20 (omega arith) (omega arith) in
    let at_12 =
      or_next 15 (f7 * 2 ^ 10 + rs2 * 2 ^ 5 + rs1) {r = f3 * 2 ^ 12} at_15 (omega arith)
        (omega arith) in
    let at_7 =
      or_next 12 (f7 * 2 ^ 13 + rs2 * 2 ^ 8 + rs1 * 2 ^ 3 + f3) {r = rd * 2 ^ 7} at_12 (omega arith)
        (omega arith) in
    or_next 7 (f7 * 2 ^ 18 + rs2 * 2 ^ 13 + rs1 * 2 ^ 8 + f3 * 2 ^ 5 + rd) at_7 (omega arith)
      (omega arith)

pub amo-sum :
    (f5 rd rs1 rs2 : ℕ)
    → rd < 32
    → rs1 < 32
    → rs2 < 32
    → amo f5 rd rs1 rs2 ≡ f5 * 2 ^ 27 + rs2 * 2 ^ 20 + rs1 * 2 ^ 15 + 2 * 2 ^ 12 + rd * 2 ^ 7 + 0x2f
unfolding amo
amo-sum f5 rd rs1 rs2 h1 h2 h3 =
    let at_20 = or_next 27 f5 {r = rs2 * 2 ^ 20} refl refl (omega arith) in
    let at_15 =
      or_next 20 (f5 * 2 ^ 7 + rs2) {r = rs1 * 2 ^ 15} at_20 (omega arith) (omega arith) in
    let at_12 =
      or_next 15 (f5 * 2 ^ 12 + rs2 * 2 ^ 5 + rs1) {r = 2 * 2 ^ 12} at_15 (omega arith)
        (omega arith) in
    let at_7 =
      or_next 12 (f5 * 2 ^ 15 + rs2 * 2 ^ 8 + rs1 * 2 ^ 3 + 2) {r = rd * 2 ^ 7} at_12 (omega arith)
        (omega arith) in
    or_next 7 (f5 * 2 ^ 20 + rs2 * 2 ^ 13 + rs1 * 2 ^ 8 + 2 * 2 ^ 5 + rd) at_7 (omega arith)
      (omega arith)

-- The branch offset `m` is cut into bits 12, 10..5, 4..1 and 11.
pub beq-sum :
    (rs1 rs2 : ℕ) (off : ℤ) (m : ℕ)
    → mask off (2 ^ 13) ≡ m
    → rs1 < 32
    → rs2 < 32
    → beq rs1 rs2 off
      ≡ m / 2 ^ 12 * 2 ^ 31
        + m / 2 ^ 5 % 2 ^ 6 * 2 ^ 25
        + rs2 * 2 ^ 20
        + rs1 * 2 ^ 15
        + 0 * 2 ^ 12
        + m / 2 % 2 ^ 4 * 2 ^ 8
        + m / 2 ^ 11 % 2 * 2 ^ 7
        + 0x63
unfolding beq
beq-sum rs1 rs2 off m e h1 h2 =
    let hi = m / 2 ^ 12 in
    let mid = m / 2 ^ 5 % 2 ^ 6 in
    let lo = m / 2 % 2 ^ 4 in
    let b11 = m / 2 ^ 11 % 2 in
    let at_25 = or_next 31 hi {r = mid * 2 ^ 25} refl refl (omega arith) in
    let at_20 =
      or_next 25 (hi * 2 ^ 6 + mid) {r = rs2 * 2 ^ 20} at_25 (omega arith) (omega arith) in
    let at_15 =
      or_next 20 (hi * 2 ^ 11 + mid * 2 ^ 5 + rs2) {r = rs1 * 2 ^ 15} at_20 (omega arith)
        (omega arith) in
    let at_12 =
      or_next 15 (hi * 2 ^ 16 + mid * 2 ^ 10 + rs2 * 2 ^ 5 + rs1) {r = 0 * 2 ^ 12} at_15
        (omega arith) (omega arith) in
    let at_8 =
      or_next 12 (hi * 2 ^ 19 + mid * 2 ^ 13 + rs2 * 2 ^ 8 + rs1 * 2 ^ 3) {r = lo * 2 ^ 8} at_12
        (omega arith) (omega arith) in
    let at_7 =
      or_next 8 (hi * 2 ^ 23 + mid * 2 ^ 17 + rs2 * 2 ^ 12 + rs1 * 2 ^ 7 + lo) {r = b11 * 2 ^ 7}
        at_8 (omega arith) (omega arith) in
    rw e (
      or_next 7 (hi * 2 ^ 24 + mid * 2 ^ 18 + rs2 * 2 ^ 13 + rs1 * 2 ^ 8 + lo * 2 + b11) at_7
        (omega arith) (omega arith))

-- The jump offset `m` is cut into bits 20, 10..1, 11 and 19..12.
pub jal-sum :
    (rd : ℕ) (imm : ℤ) (m : ℕ)
    → mask imm (2 ^ 21) ≡ m
    → rd < 32
    → jal rd imm
      ≡ m / 2 ^ 20 * 2 ^ 31
        + m / 2 % 2 ^ 10 * 2 ^ 21
        + m / 2 ^ 11 % 2 * 2 ^ 20
        + m / 2 ^ 12 % 2 ^ 8 * 2 ^ 12
        + rd * 2 ^ 7
        + 0x6f
unfolding jal
jal-sum rd imm m e h =
    let hi = m / 2 ^ 20 in
    let lo = m / 2 % 2 ^ 10 in
    let b11 = m / 2 ^ 11 % 2 in
    let mid = m / 2 ^ 12 % 2 ^ 8 in
    let at_21 = or_next 31 hi {r = lo * 2 ^ 21} refl refl (omega arith) in
    let at_20 =
      or_next 21 (hi * 2 ^ 10 + lo) {r = b11 * 2 ^ 20} at_21 (omega arith) (omega arith) in
    let at_12 =
      or_next 20 (hi * 2 ^ 11 + lo * 2 + b11) {r = mid * 2 ^ 12} at_20 (omega arith)
        (omega arith) in
    let at_7 =
      or_next 12 (hi * 2 ^ 19 + lo * 2 ^ 9 + b11 * 2 ^ 8 + mid) {r = rd * 2 ^ 7} at_12 (omega arith)
        (omega arith) in
    rw e (
      or_next 7 (hi * 2 ^ 24 + lo * 2 ^ 14 + b11 * 2 ^ 13 + mid * 2 ^ 5 + rd) at_7 (omega arith)
        (omega arith))
