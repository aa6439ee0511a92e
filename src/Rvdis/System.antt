-- ===== src/Rvdis/System.antt =====
-- The SYSTEM case of `decode` in tools/rvdis.py: the privileged instructions and the CSR accesses.
use koti.Base.{ℕ, Option, none, some, ◌==◌, ◌&&◌, ◌||◌, ◌>>=◌, if◌then◌else◌, ◌++◌, List, [], ◌∷◌}
use koti.Base.Bits.{◌>>◌, low_bits}
use koti.Base.Text.{Text, lit, hex, hex8, dec}
use koti.Rvdis.Tables.{csrs, entry}
use koti.Rvdis.Word.{Insn, Locals, insn, bad}

abbrev pub privileged : List (ℕ × Text)
privileged =
    (0x000, lit "ecall")
    ∷ (0x001, lit "ebreak")
    ∷ (0x102, lit "sret")
    ∷ (0x302, lit "mret")
    ∷ (0x105, lit "wfi")
    ∷ []

abbrev pub counters : List (ℕ × Text)
counters =
    (0xc01, lit "rdtime")
    ∷ (0xc81, lit "rdtimeh")
    ∷ (0xc00, lit "rdcycle")
    ∷ (0xc02, lit "rdinstret")
    ∷ []

abbrev pub csr_short : List (ℕ × Text)
csr_short = (1, lit "csrw") ∷ (2, lit "csrs") ∷ (3, lit "csrc") ∷ []

abbrev pub csr_full : List (ℕ × Text)
csr_full = (1, lit "csrrw") ∷ (2, lit "csrrs") ∷ (3, lit "csrrc") ∷ []

abbrev pub csr_short_imm : List (ℕ × Text)
csr_short_imm = (5, lit "csrwi") ∷ (6, lit "csrsi") ∷ (7, lit "csrci") ∷ []

abbrev pub csr_full_imm : List (ℕ × Text)
csr_full_imm = (5, lit "csrrwi") ∷ (6, lit "csrrsi") ∷ (7, lit "csrrci") ∷ []

-- `CSRS.get(csr, f"0x{csr:x}")`.
unfoldable pub csr_name : ℕ → Text
csr_name csr = elim (entry csrs csr) [ none ↦ lit "0x" ++ hex csr | some name ↦ name ]

unfoldable pub decode_privileged : Locals → ℕ → Option Insn
decode_privileged l csr =
    if l.f7 == 0x09
    then insn l (lit "sfence.vma " ++ l.s1 ++ lit "," ++ l.s2)
    else insn l
        (elim (entry privileged csr) [ none ↦ lit ".word 0x" ++ hex8 l.word | some name ↦ name ])

-- A read with no write, where the counters have names of their own.
unfoldable pub decode_csr_read : Locals → ℕ → Option Insn
decode_csr_read l csr = elim (entry counters csr) [
  | none ↦ insn l (lit "csrr " ++ l.d ++ lit "," ++ csr_name csr)
  | some pseudo ↦ insn l (pseudo ++ lit " " ++ l.d)
]

-- The register and the immediate forms: `src` is what the access writes.
unfoldable pub decode_csr_write :
    List (ℕ × Text) → List (ℕ × Text) → Text → Locals → Text → Option Insn
decode_csr_write short_names full_names src l name =
    if l.rd == 0
    then (do short ← entry short_names l.f3; insn l (short ++ lit " " ++ name ++ lit "," ++ src))
    else do
      m ← entry full_names l.f3
      insn l (m ++ lit " " ++ l.d ++ lit "," ++ name ++ lit "," ++ src)

unfoldable pub decode_system : Locals → Option Insn
decode_system l =
    let csr = low_bits (l.word >> 20) 12 in
    if l.f3 == 0
    then decode_privileged l csr
    else if (l.f3 == 1) || (l.f3 == 2) || (l.f3 == 3)
    then if (l.f3 == 2) && (l.rs1 == 0)
      then decode_csr_read l csr
      else decode_csr_write csr_short csr_full l.s1 l (csr_name csr)
    else if (l.f3 == 5) || (l.f3 == 6) || (l.f3 == 7)
    then decode_csr_write csr_short_imm csr_full_imm (dec l.rs1) l (csr_name csr)
    else bad l
