-- ===== src/Rvdis/Total.antt =====
-- `decode` of tools/rvdis.py never raises: every table is asked only for what it holds.
use koti.Base.{
  ℕ, ◌<◌, ◌%◌, ◌^◌, ◌/◌, ◌≡◌, ◌≢◌, ◌⊎◌, ◌∙◌, refl, Option, none, some, true, arith, get_elem?_lt,
  lookup-has_key, Returns, List,
}
use koti.Base.Text.{Text, lit, dec}
use koti.Rvdis.Decode.{decode, decode_opcode}
use koti.Rvdis.Tables.{regs, reg, entry, has_entry, op, op_m, branch, load, store, op_imm}
use koti.Rvdis.Memory.{decode_load, decode_store, decode_fence, amo_text, decode_amo}
use koti.Rvdis.System.{
  csr_name, csr_short, csr_full, csr_short_imm, csr_full_imm, decode_privileged, decode_csr_read,
  decode_csr_write, decode_system,
}
use koti.Base.Int.{ℤ}
use koti.Rvdis.Word.{imm_i, Insn, Locals, bad, locals, make_locals, get_rd, get_rs1, get_rs2}
use koti.Rvdis.Flow.{decode_jal, decode_jalr, decode_branch}
use koti.Rvdis.Arithmetic.{decode_upper, decode_op_imm, op_imm_text, three_regs, decode_op}

pub reg-Returns : (i : ℕ) → i < 32 → Returns (reg i)
unfolding reg
reg-Returns i h = get_elem?_lt regs i h

-- The result is an instruction, and not an exception, at the address and of the word that came in.
abbrev pub Keeps : Locals → Option Insn → Type 0
Keeps l none = ⊥
Keeps l (some i) = (i.pc ≡ l.pc) × (i.word ≡ l.word)

decode_jal-Keeps : (l : Locals) → Keeps l (decode_jal l)
unfolding decode_jal
decode_jal-Keeps l = ground arith

decode_jalr-Keeps : (l : Locals) → Keeps l (decode_jalr l)
unfolding decode_jalr
decode_jalr-Keeps l = ground arith

bad-Keeps : (l : Locals) → Keeps l (bad l)
unfolding bad
bad-Keeps l = (refl, refl)

-- A lookup of a key that the table holds returns.
entry-ne-none : (table : List (ℕ × Text)) (k : ℕ) → has_entry table k ≡ true → entry table k ≢ none
unfolding entry has_entry
entry-ne-none table k e = let (m, found) = lookup-has_key k table e in cc found

-- `OP` and `OP_M` have an entry for each value of `funct3`.
op_complete : (k : ℕ) → k < 8 → (has_entry op k ≡ true) × (has_entry op_m k ≡ true)
unfolding has_entry
op_complete k h = ground arith

decode_upper-Keeps : (name : Text) (l : Locals) → Keeps l (decode_upper name l)
unfolding decode_upper
decode_upper-Keeps name l = (refl, refl)

decode_branch-Keeps : (l : Locals) → Keeps l (decode_branch l)
unfolding decode_branch bad
decode_branch-Keeps l = ground (arith, entry-ne-none branch l.f3)

decode_load-Keeps : (l : Locals) → Keeps l (decode_load l)
unfolding decode_load bad
decode_load-Keeps l = ground (arith, entry-ne-none load l.f3)

decode_store-Keeps : (l : Locals) → Keeps l (decode_store l)
unfolding decode_store bad
decode_store-Keeps l = ground (arith, entry-ne-none store l.f3)

op_imm_text-Keeps :
    (l : Locals) (imm : ℤ) → has_entry op_imm l.f3 ≡ true → Keeps l (op_imm_text l imm)
unfolding op_imm_text
op_imm_text-Keeps l imm e = ground (arith, entry-ne-none op_imm l.f3)

decode_op_imm-Keeps : (l : Locals) → Keeps l (decode_op_imm l)
unfolding decode_op_imm bad
decode_op_imm-Keeps l = ground (arith, op_imm_text-Keeps l (imm_i l.word))

decode_op-Keeps : (l : Locals) → l.f3 < 8 → Keeps l (decode_op l)
unfolding decode_op three_regs bad
decode_op-Keeps l h =
    ground (arith, op_complete l.f3 h, entry-ne-none op l.f3, entry-ne-none op_m l.f3)

decode_fence-Keeps : (l : Locals) → Keeps l (decode_fence l)
unfolding decode_fence bad
decode_fence-Keeps l = ground arith

decode_amo-Keeps : (l : Locals) → Keeps l (decode_amo l)
unfolding decode_amo amo_text bad
decode_amo-Keeps l = ground arith

csr_tables :
    (k : ℕ)
    → ((k ≡ 1) ⊎ (k ≡ 2) ⊎ (k ≡ 3) → (has_entry csr_short k ≡ true) × (has_entry csr_full k ≡ true))
      × ((k ≡ 5) ⊎ (k ≡ 6) ⊎ (k ≡ 7)
          → (has_entry csr_short_imm k ≡ true) × (has_entry csr_full_imm k ≡ true))
unfolding has_entry
csr_tables k = (λ h. ground arith, λ h. ground arith)

decode_csr_write-Keeps :
    (short full : List (ℕ × Text)) (src : Text) (l : Locals) (name : Text)
    → (has_entry short l.f3 ≡ true) × (has_entry full l.f3 ≡ true)
    → Keeps l (decode_csr_write short full src l name)
unfolding decode_csr_write
decode_csr_write-Keeps short full src l name h =
    ground (arith, entry-ne-none short l.f3, entry-ne-none full l.f3)

decode_csr_read-Keeps : (l : Locals) (csr : ℕ) → Keeps l (decode_csr_read l csr)
unfolding decode_csr_read
decode_csr_read-Keeps l csr = ground arith

decode_privileged-Keeps : (l : Locals) (csr : ℕ) → Keeps l (decode_privileged l csr)
unfolding decode_privileged
decode_privileged-Keeps l csr = ground arith

decode_system-Keeps : (l : Locals) → Keeps l (decode_system l)
unfolding decode_system bad
decode_system-Keeps l = ground (
  arith,
  csr_tables l.f3,
  decode_privileged-Keeps l (l.word / 2 ^ 20 % 2 ^ 12),
  decode_csr_read-Keeps l (l.word / 2 ^ 20 % 2 ^ 12),
  decode_csr_write-Keeps csr_short csr_full l.s1 l (csr_name (l.word / 2 ^ 20 % 2 ^ 12)),
  decode_csr_write-Keeps csr_short_imm csr_full_imm (dec l.rs1) l
      (csr_name (l.word / 2 ^ 20 % 2 ^ 12)),
)

decode_opcode-Keeps : (l : Locals) → l.f3 < 8 → Keeps l (decode_opcode l)
unfolding decode_opcode bad
decode_opcode-Keeps l h = ground (
  arith,
  decode_upper-Keeps (lit "lui") l,
  decode_upper-Keeps (lit "auipc") l,
  decode_jal-Keeps l,
  decode_jalr-Keeps l,
  decode_branch-Keeps l,
  decode_load-Keeps l,
  decode_store-Keeps l,
  decode_op_imm-Keeps l,
  decode_op-Keeps l h,
  decode_fence-Keeps l,
  decode_amo-Keeps l,
  decode_system-Keeps l,
)

-- The fields of a word, once its three registers are named.
pub locals-Returns :
    (w pc : ℕ) → (l : Locals) × (locals w pc ≡ some l) × (l.pc ≡ pc) × (l.word ≡ w) × (l.f3 < 8)
unfolding locals get_rd get_rs1 get_rs2
locals-Returns w pc =
    let (d, hd) = reg-Returns (w / 2 ^ 7 % 2 ^ 5) (omega arith) in
    let (s1, hs1) = reg-Returns (w / 2 ^ 15 % 2 ^ 5) (omega arith) in
    let (s2, hs2) = reg-Returns (w / 2 ^ 20 % 2 ^ 5) (omega arith) in
    (make_locals w pc d s1 s2, rw (hd, hs1, hs2), refl, refl, omega arith)

Keeps-Returns :
    (l : Locals) (o : Option Insn)
    → Keeps l o
    → (i : Insn) × (o ≡ some i) × (i.pc ≡ l.pc) × (i.word ≡ l.word)
Keeps-Returns l none h = absurd h
Keeps-Returns l (some i) h = (i, refl, h.0, h.1)

-- `decode` never raises: for every word and every pc it returns an instruction, which is at that pc
-- and holds the low 32 bits of that word.
pub decode-Returns :
    (word pc : ℕ) → (i : Insn) × (decode word pc ≡ some i) × (i.pc ≡ pc) × (i.word ≡ word % 2 ^ 32)
unfolding decode
decode-Returns word pc =
    let (l, found, at_pc, of_word, f3_fits) = locals-Returns (word % 2 ^ 32) pc in
    let decoded : Keeps l (decode word pc) =
      rw found (ground (arith, decode_opcode-Keeps l f3_fits)) in
    let (i, returned, i_pc, i_word) = Keeps-Returns l (decode word pc) decoded in
    (i, returned, i_pc ∙ at_pc, i_word ∙ of_word)
