-- ===== src/Asm/RoundTrip.antt =====
-- What tools/rvdis.py prints for the words of the assembler in test/test_cpu.py: the operands that
-- the assembler was given.
use koti.Base.{
  ℕ, ◌*◌, ◌/◌, ◌%◌, ◌^◌, ◌<◌, ◌≡◌, ◌∙◌, refl, arith, none, some, ◌++◌, ◌==◌, if◌then◌else◌, ◌&&◌,
  [], false, Bool-cases, Option-cases, inl, inr,
}
use koti.Base.Text.{text_eq, repeat_text, Text, lit, dec_ℤ}
use koti.Base.Int.{ℤ, pos, mask, eq_ℤ}
use koti.Rvdis.Word.{imm_s}
use koti.Rvdis.Extend.{Fits}
use koti.Rvdis.Decode.{decode, decode_opcode}
use koti.Rvdis.Arithmetic.{decode_op, three_regs, decode_op_imm, op_imm_text}
use koti.Rvdis.Memory.{decode_load, decode_store, decode_amo, amo_text, ordering_suffix}
use koti.Rvdis.Tables
use koti.Rvdis.System.{counters, csr_name, decode_system, decode_csr_read, decode_csr_write}
use koti.Rvdis.Tables.{entry, has_entry, op_m}
use koti.Asm.{r_type, i_type, add, or, sub, mop, lw, sw, addi, amo, csr_type, csrrw, csrrs}
use koti.Asm.Layout.{i_type-sum}
use koti.Asm.Decoded.{Fields, named, reg_name, decode-named}
use koti.Asm.Encoded.{
  plain, amo-IsEncoded, r_type-IsEncoded, i_type-IsEncoded, mask-lt, imm_i-i_type, imm_s-sw,
}

-- Three registers behind a name, and a signed offset from a register.
abbrev pub regs_text : Text → ℕ → ℕ → ℕ → Text
regs_text m a b c = m ++ lit " " ++ reg_name a ++ lit "," ++ reg_name b ++ lit "," ++ reg_name c

abbrev pub offset_text : Text → ℕ → ℤ → ℕ → Text
offset_text m a z b =
    m ++ lit " " ++ reg_name a ++ lit "," ++ dec_ℤ z ++ lit "(" ++ reg_name b ++ lit ")"

-- For registers below 32, `add`, `or`, each `mop` of a `funct3` that names an operation, and `sub`
-- decode to their names and the three registers in the assembler's order, with no target; only
-- `sub` from the zero register is printed as `neg`.
pub decode-register :
    (rd rs1 rs2 f3 pc : ℕ) (m : Text)
    → rd < 32
    → rs1 < 32
    → rs2 < 32
    → f3 < 8
    → entry op_m f3 ≡ some m
    → (decode (add rd rs1 rs2) pc ≡ plain pc (add rd rs1 rs2) (regs_text (lit "add") rd rs1 rs2))
      × (decode (or rd rs1 rs2) pc ≡ plain pc (or rd rs1 rs2) (regs_text (lit "or") rd rs1 rs2))
      × (decode (mop f3 rd rs1 rs2) pc ≡ plain pc (mop f3 rd rs1 rs2) (regs_text m rd rs1 rs2))
      × (decode (sub rd rs1 rs2) pc
          ≡ plain pc (sub rd rs1 rs2) (
              if rs1 == 0
              then lit "neg " ++ reg_name rd ++ lit "," ++ reg_name rs2
              else regs_text (lit "sub") rd rs1 rs2))
unfolding add or mop sub decode_opcode decode_op three_regs entry
decode-register rd rs1 rs2 f3 pc m hd h1 h2 h3 e = (
  decode-named pc _ _ (
      r_type-IsEncoded 0 rs2 rs1 0 rd 0x33 (omega arith) h2 h1 (omega arith) hd (omega arith) refl),
  decode-named pc _ _ (
      r_type-IsEncoded 0 rs2 rs1 6 rd 0x33 (omega arith) h2 h1 (omega arith) hd (omega arith) refl),
  rw (
    decode-named pc _ _
        (r_type-IsEncoded 1 rs2 rs1 f3 rd 0x33 (omega arith) h2 h1 h3 hd (omega arith) refl),
    e,
  ),
  decode-named pc _ _ (
        r_type-IsEncoded 0x20 rs2 rs1 0 rd 0x33 (omega arith) h2 h1 (omega arith) hd (omega arith)
          refl)
      ∙ ground arith,
)

-- For registers below 32 and an offset that fits 12 signed bits, `lw` and `sw` decode to the same
-- registers and the same signed offset.
pub decode-memory :
    (r rs1 pc : ℕ) (imm : ℤ)
    → r < 32
    → rs1 < 32
    → Fits 11 imm
    → (decode (lw r rs1 imm) pc ≡ plain pc (lw r rs1 imm) (offset_text (lit "lw") r imm rs1))
      × (decode (sw r rs1 imm) pc ≡ plain pc (sw r rs1 imm) (offset_text (lit "sw") r imm rs1))
unfolding lw sw decode_opcode decode_load decode_store entry has_entry
decode-memory r rs1 pc imm hr h1 fits =
    let m = mask imm (2 ^ 12) in
    let below : m < 2 ^ 12 = mask-lt imm (2 ^ 12) (omega arith) in
    let loaded = i_type-IsEncoded m rs1 2 r 0x03 below h1 (omega arith) hr (omega arith) refl in
    let stored =
      r_type-IsEncoded (m / 2 ^ 5) r rs1 2 (m % 2 ^ 5) 0x23 (omega arith) hr h1 (omega arith)
        (omega arith) (omega arith) refl in
    let offset : imm_s (r_type (m / 2 ^ 5) r rs1 2 (m % 2 ^ 5) 0x23) ≡ imm =
      imm_s-sw r rs1 imm fits hr h1 in
    (
      rw (
        decode-named pc _ _ loaded,
        imm_i-i_type imm rs1 2 r 0x03 fits h1 (omega arith) hr (omega arith),
      ),
      rw (decode-named pc _ _ stored, offset),
    )

-- What objdump prints for `addi`.
abbrev pub addi_text : ℕ → ℕ → ℤ → Text
addi_text rd rs1 imm =
    if (rd == 0) && (rs1 == 0) && eq_ℤ imm (pos 0)
    then lit "nop"
    else if rs1 == 0
    then lit "li " ++ reg_name rd ++ lit "," ++ dec_ℤ imm
    else if eq_ℤ imm (pos 0)
    then lit "mv " ++ reg_name rd ++ lit "," ++ reg_name rs1
    else lit "addi" ++ lit " " ++ reg_name rd ++ lit "," ++ reg_name rs1 ++ lit "," ++ dec_ℤ imm

-- For registers below 32 and an immediate that fits 12 signed bits, `addi` decodes to that signed
-- immediate and those registers, printed as `nop`, `li` or `mv` where objdump does so.
pub decode-addi :
    (rd rs1 pc : ℕ) (imm : ℤ)
    → rd < 32
    → rs1 < 32
    → Fits 11 imm
    → decode (addi rd rs1 imm) pc ≡ plain pc (addi rd rs1 imm) (addi_text rd rs1 imm)
unfolding addi decode_opcode decode_op_imm op_imm_text entry has_entry
decode-addi rd rs1 pc imm hd h1 fits =
    rw
      (
        decode-named pc _ _ (
            i_type-IsEncoded (mask imm (2 ^ 12)) rs1 0 rd 0x13 (mask-lt imm (2 ^ 12) (omega arith))
              h1 (omega arith) hd (omega arith) refl),
        imm_i-i_type imm rs1 0 rd 0x13 fits h1 (omega arith) hd (omega arith),
      )
      (ground arith)

-- For registers below 32 and an operation code that names an atomic operation other than `lr.w`,
-- `amo` decodes to that name with no ordering suffix, and to the registers in objdump's order.
pub decode-amo :
    (f5 rd rs1 rs2 pc : ℕ) (m : Text)
    → f5 < 32
    → rd < 32
    → rs1 < 32
    → rs2 < 32
    → entry Tables.amo f5 ≡ some m
    → text_eq m (lit "lr.w") ≡ false
    → decode (amo f5 rd rs1 rs2) pc
      ≡ plain pc (amo f5 rd rs1 rs2) (
          m
          ++ []
          ++ lit " "
          ++ reg_name rd
          ++ lit ","
          ++ reg_name rs2
          ++ lit ",("
          ++ reg_name rs1
          ++ lit ")")
unfolding decode_opcode decode_amo amo_text ordering_suffix repeat_text
decode-amo f5 rd rs1 rs2 pc m h5 hd h1 h2 found other =
    let code : f5 * 4 / 2 ^ 2 ≡ f5 = omega arith in
    let no_aq : f5 * 4 / 2 ^ 1 % 2 ^ 1 ≡ 0 = omega arith in
    let no_rl : f5 * 4 % 2 ^ 1 ≡ 0 = omega arith in
    rw (
      decode-named pc _ _ (amo-IsEncoded f5 rd rs1 rs2 h5 hd h1 h2),
      code,
      found,
      other,
      no_aq,
      no_rl,
    )

-- What a CSR access is printed as: without its destination if that is the zero register.
abbrev pub csr_text : Text → Text → ℕ → ℕ → ℕ → Text
csr_text short full rd csr rs1 =
    if rd == 0
    then short ++ lit " " ++ csr_name csr ++ lit "," ++ reg_name rs1
    else full ++ lit " " ++ reg_name rd ++ lit "," ++ csr_name csr ++ lit "," ++ reg_name rs1

-- What a read is printed as: the counters have names of their own.
abbrev pub csr_read_text : ℕ → ℕ → Text
csr_read_text rd csr = elim (entry counters csr) [
  | none ↦ lit "csrr " ++ reg_name rd ++ lit "," ++ csr_name csr
  | some pseudo ↦ pseudo ++ lit " " ++ reg_name rd
]

abbrev csrrs_text : ℕ → ℕ → ℕ → Text
csrrs_text rd csr rs1 =
    if rs1 == 0 then csr_read_text rd csr else csr_text (lit "csrs") (lit "csrrs") rd csr rs1

csr_number :
    (f3 rd csr rs1 : ℕ)
    → f3 < 8
    → rd < 32
    → csr < 2 ^ 12
    → rs1 < 32
    → i_type csr rs1 f3 rd 0x73 / 2 ^ 20 % 2 ^ 12 ≡ csr
csr_number f3 rd csr rs1 h3 hd hc h1 =
    rw (i_type-sum csr rs1 f3 rd 0x73 h1 h3 hd (omega arith)) (omega arith)

decode-write :
    (rd csr rs1 pc : ℕ)
    → rd < 32
    → csr < 2 ^ 12
    → rs1 < 32
    → decode (csrrw rd csr rs1) pc
      ≡ plain pc (csrrw rd csr rs1) (csr_text (lit "csrw") (lit "csrrw") rd csr rs1)
unfolding csrrw csr_type decode_opcode decode_system decode_csr_write entry
decode-write rd csr rs1 pc hd hc h1 =
    let enc = i_type-IsEncoded csr rs1 1 rd 0x73 hc h1 (omega arith) hd (omega arith) refl in
    rw (decode-named pc _ _ enc, csr_number 1 rd csr rs1 (omega arith) hd hc h1) (ground arith)

decode_csr_read-text :
    (pc w csr : ℕ) (fs : Fields)
    → decode_csr_read (named pc w fs) csr ≡ plain pc w (csr_read_text fs.rd csr)
unfolding decode_csr_read
decode_csr_read-text pc w csr fs = elim (Option-cases (entry counters csr)) [
  | inl unnamed ↦ rw (unnamed, decode_csr_read, csr_read_text) refl
  | inr (pseudo, found) ↦ rw (found, decode_csr_read, csr_read_text) refl
]

decode-set :
    (rd csr rs1 pc : ℕ)
    → rd < 32
    → csr < 2 ^ 12
    → rs1 < 32
    → decode (csrrs rd csr rs1) pc ≡ plain pc (csrrs rd csr rs1) (csrrs_text rd csr rs1)
unfolding csrrs csr_type decode_opcode decode_system decode_csr_write entry
decode-set rd csr rs1 pc hd hc h1 =
    let enc = i_type-IsEncoded csr rs1 2 rd 0x73 hc h1 (omega arith) hd (omega arith) refl in
    let number = csr_number 2 rd csr rs1 (omega arith) hd hc h1 in
    elim (Bool-cases (rs1 == 0)) [
      | inl zero_source ↦
          rw (decode-named pc _ _ enc, number, zero_source)
            (decode_csr_read-text pc (i_type csr rs1 2 rd 0x73) csr _)
      | inr source ↦ rw (decode-named pc _ _ enc, number, source) (ground arith)
    ]

-- For registers below 32 and a CSR number of 12 bits: `csrrw` decodes to the CSR's name and both
-- registers, as `csrw` without the destination if that is the zero register; and `csrrs` to the same with
-- `csrrs` and `csrs`, but if its source is the zero register to a read, which is the counter's own name
-- with the destination for a counter, and else `csrr` with the destination and the CSR's name.
pub decode-csrrw :
    (rd csr rs1 pc : ℕ)
    → rd < 32
    → csr < 2 ^ 12
    → rs1 < 32
    → (decode (csrrw rd csr rs1) pc
        ≡ plain pc (csrrw rd csr rs1) (csr_text (lit "csrw") (lit "csrrw") rd csr rs1))
      × (decode (csrrs rd csr rs1) pc
          ≡ plain pc (csrrs rd csr rs1) (
              if rs1 == 0
              then csr_read_text rd csr
              else csr_text (lit "csrs") (lit "csrrs") rd csr rs1))
decode-csrrw rd csr rs1 pc hd hc h1 =
    (decode-write rd csr rs1 pc hd hc h1, decode-set rd csr rs1 pc hd hc h1)
