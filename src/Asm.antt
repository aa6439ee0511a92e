-- ===== src/Asm.antt =====
-- The tiny assembler of test/test_cpu.py, and `_jal` of test/test_rvdis.py. Its immediates are signed
-- Python integers; a register, a `funct` field or a CSR number is given in range by every caller.
pub mod Layout
pub mod Decoded
pub mod Encoded
pub mod RoundTrip
pub mod Branches
mod Tests
use koti.Base.{ℕ, ◌+◌, ◌-◌, ◌*◌, ◌/◌, ◌%◌, ◌^◌, List, [], ◌∷◌, Bool, ◌==◌, leb, if◌then◌else◌, not}
use koti.Base.Bits.{◌<<◌, ◌>>◌, low_bits, bit_or}
use koti.Base.Int.{ℤ, pos, mask}

unfoldable pub r_type : ℕ → ℕ → ℕ → ℕ → ℕ → ℕ → ℕ
r_type f7 rs2 rs1 f3 rd op =
    bit_or
      (bit_or (bit_or (bit_or (bit_or (f7 << 25) (rs2 << 20)) (rs1 << 15)) (f3 << 12)) (rd << 7)) op

-- The shape that `addi`, `lw`, `jalr`, `slli`, `andi` and `_csr` share.
unfoldable pub i_type : ℕ → ℕ → ℕ → ℕ → ℕ → ℕ
i_type imm rs1 f3 rd op =
    bit_or (bit_or (bit_or (bit_or (imm << 20) (rs1 << 15)) (f3 << 12)) (rd << 7)) op

unfoldable pub addi : ℕ → ℕ → ℤ → ℕ
addi rd rs1 imm = i_type (mask imm (2 ^ 12)) rs1 0 rd 0x13

-- `(imm & 0xFFFF_F000) | (rd << 7) | 0x37`.
unfoldable pub lui : ℕ → ℕ → ℕ
lui rd imm = bit_or (bit_or (low_bits imm 32 >> 12 << 12) (rd << 7)) 0x37

-- One or two instructions that put any 32-bit value into `rd`.
unfoldable pub li : ℕ → ℕ → List ℕ
li rd val =
    let v = val % 2 ^ 32 in
    let lo = low_bits v 12 in
    let hi = if leb 0x800 lo then (v + 0x1000 - lo) % 2 ^ 32 else (v - lo) % 2 ^ 32 in
    if hi == 0
    then addi rd 0 (pos lo) ∷ []
    else if not (lo == 0)
    then lui rd hi ∷ addi rd rd (pos lo) ∷ []
    else lui rd hi ∷ []

unfoldable pub add : ℕ → ℕ → ℕ → ℕ
add rd rs1 rs2 = r_type 0x00 rs2 rs1 0 rd 0x33

unfoldable pub sub : ℕ → ℕ → ℕ → ℕ
sub rd rs1 rs2 = r_type 0x20 rs2 rs1 0 rd 0x33

unfoldable pub mop : ℕ → ℕ → ℕ → ℕ → ℕ
mop f3 rd rs1 rs2 = r_type 0x01 rs2 rs1 f3 rd 0x33

unfoldable pub lw : ℕ → ℕ → ℤ → ℕ
lw rd rs1 imm = i_type (mask imm (2 ^ 12)) rs1 2 rd 0x03

unfoldable pub sw : ℕ → ℕ → ℤ → ℕ
sw rs2 rs1 imm = let m = mask imm (2 ^ 12) in r_type (m >> 5) rs2 rs1 2 (low_bits m 5) 0x23

unfoldable pub jalr : ℕ → ℕ → ℤ → ℕ
jalr rd rs1 imm = i_type (mask imm (2 ^ 12)) rs1 0 rd 0x67

unfoldable pub slli : ℕ → ℕ → ℕ → ℕ
slli rd rs1 sh = i_type (low_bits sh 5) rs1 1 rd 0x13

unfoldable pub andi : ℕ → ℕ → ℤ → ℕ
andi rd rs1 imm = i_type (mask imm (2 ^ 12)) rs1 7 rd 0x13

unfoldable pub or : ℕ → ℕ → ℕ → ℕ
or rd rs1 rs2 = r_type 0x00 rs2 rs1 6 rd 0x33

unfoldable pub beq : ℕ → ℕ → ℤ → ℕ
beq rs1 rs2 off =
    let m = mask off (2 ^ 13) in
    bit_or
      (bit_or
        (bit_or
          (bit_or
            (bit_or (bit_or (bit_or (m >> 12 << 31) (low_bits (m >> 5) 6 << 25)) (rs2 << 20))
              (rs1 << 15))
            (0 << 12))
          (low_bits (m >> 1) 4 << 8))
        (low_bits (m >> 11) 1 << 7))
      0x63

unfoldable pub csr_type : ℕ → ℕ → ℕ → ℕ → ℕ
csr_type f3 rd csr rs1_or_z = i_type csr rs1_or_z f3 rd 0x73

unfoldable pub csrrw : ℕ → ℕ → ℕ → ℕ
csrrw rd csr rs1 = csr_type 1 rd csr rs1

unfoldable pub csrrs : ℕ → ℕ → ℕ → ℕ
csrrs rd csr rs1 = csr_type 2 rd csr rs1

unfoldable pub csrrc : ℕ → ℕ → ℕ → ℕ
csrrc rd csr rs1 = csr_type 3 rd csr rs1

unfoldable pub csrrwi : ℕ → ℕ → ℕ → ℕ
csrrwi rd csr z = csr_type 5 rd csr z

unfoldable pub csrrsi : ℕ → ℕ → ℕ → ℕ
csrrsi rd csr z = csr_type 6 rd csr z

-- `(f5 << 27) | (rs2 << 20) | …`.
unfoldable pub amo : ℕ → ℕ → ℕ → ℕ → ℕ
amo f5 rd rs1 rs2 =
    bit_or
      (bit_or (bit_or (bit_or (bit_or (f5 << 27) (rs2 << 20)) (rs1 << 15)) (2 << 12)) (rd << 7))
      0x2f

-- `_jal` of test/test_rvdis.py.
unfoldable pub jal : ℕ → ℤ → ℕ
jal rd imm =
    let m = mask imm (2 ^ 21) in
    bit_or
      (bit_or
        (bit_or
          (bit_or (bit_or (m >> 20 << 31) (low_bits (m >> 1) 10 << 21))
            (low_bits (m >> 11) 1 << 20))
          (low_bits (m >> 12) 8 << 12))
        (rd << 7))
      0x6f
