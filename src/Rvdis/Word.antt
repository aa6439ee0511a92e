-- ===== src/Rvdis/Word.antt =====
-- The instruction word of tools/rvdis.py: its fields, its sign-extended immediates, and the record
-- of one decoded instruction.
use koti.Base.{ℕ, ◌-◌, ◌^◌, Option, none, some, Bool, ◌==◌, ◌>>=◌, ◌++◌}
use koti.Base.Int.{ℤ, pos, sub_ℕ, ◌+ℤ◌, mask}
use koti.Base.Bits.{◌<<◌, ◌>>◌, low_bits, bit_or, bit_xor}
use koti.Base.Text.{Text, lit, hex8}
use koti.Rvdis.Tables.{reg}

-- `(value ^ sign) - sign`.
unfoldable pub sext : ℕ → ℕ → ℤ
sext value bits = let sign = 1 << (bits - 1) in sub_ℕ (bit_xor value sign) sign

unfoldable pub is_uncompressed : ℕ → Bool
is_uncompressed word = low_bits word 2 == 3

pub record Insn : Type 0 where
  pub pc : ℕ
  pub word : ℕ
  pub text : Text
  pub target : Option ℕ

-- The local variables of `decode` once its operands are named.
pub record Locals : Type 0 where
  pub pc : ℕ
  pub word : ℕ
  pub op : ℕ
  pub rd : ℕ
  pub rs1 : ℕ
  pub rs2 : ℕ
  pub f3 : ℕ
  pub f7 : ℕ
  pub d : Text
  pub s1 : Text
  pub s2 : Text

unfoldable pub get_rd : ℕ → ℕ
get_rd w = low_bits (w >> 7) 5

unfoldable pub get_rs1 : ℕ → ℕ
get_rs1 w = low_bits (w >> 15) 5

unfoldable pub get_rs2 : ℕ → ℕ
get_rs2 w = low_bits (w >> 20) 5

-- The fields of a 32-bit word, with the names of its registers.
abbrev pub make_locals : ℕ → ℕ → Text → Text → Text → Locals
make_locals w pc d s1 s2 = record {
  pc = pc;
  word = w;
  op = low_bits w 7;
  rd = get_rd w;
  rs1 = get_rs1 w;
  rs2 = get_rs2 w;
  f3 = low_bits (w >> 12) 3;
  f7 = low_bits (w >> 25) 7;
  d = d;
  s1 = s1;
  s2 = s2;
}

unfoldable pub locals : ℕ → ℕ → Option Locals
locals w pc = do
  d ← reg (get_rd w)
  s1 ← reg (get_rs1 w)
  s2 ← reg (get_rs2 w)
  some (make_locals w pc d s1 s2)

-- `Insn(pc, word, text)` and `Insn(pc, word, text, target)`.
abbrev pub insn : Locals → Text → Option Insn
insn l t = some (record { pc = l.pc; word = l.word; text = t; target = none })

abbrev pub jump : Locals → Text → ℕ → Option Insn
jump l t tgt = some (record { pc = l.pc; word = l.word; text = t; target = some tgt })

-- `bad()`.
unfoldable pub bad : Locals → Option Insn
bad l = insn l (lit ".word 0x" ++ hex8 l.word)

-- The immediates of the formats.
unfoldable pub imm_i : ℕ → ℤ
imm_i w = sext (w >> 20) 12

unfoldable pub imm_s : ℕ → ℤ
imm_s w = sext (bit_or (low_bits (w >> 25) 7 << 5) (low_bits (w >> 7) 5)) 12

unfoldable pub imm_b : ℕ → ℤ
imm_b w =
    sext
      (bit_or
        (bit_or (bit_or (low_bits (w >> 31) 1 << 12) (low_bits (w >> 7) 1 << 11))
          (low_bits (w >> 25) 6 << 5))
        (low_bits (w >> 8) 4 << 1))
      13

unfoldable pub imm_j : ℕ → ℤ
imm_j w =
    sext
      (bit_or
        (bit_or (bit_or (low_bits (w >> 31) 1 << 20) (low_bits (w >> 12) 8 << 12))
          (low_bits (w >> 20) 1 << 11))
        (low_bits (w >> 21) 10 << 1))
      21

-- `(pc + imm) & 0xFFFFFFFF`.
unfoldable pub jump_target : ℕ → ℤ → ℕ
jump_target pc imm = mask (pos pc +ℤ imm) (2 ^ 32)
