-- ===== src/Rvdis/Tables.antt =====
-- The name tables of tools/rvdis.py. A lookup is an option: `none` is the IndexError of a list and
-- the KeyError of a dict.
use koti.Base.{ℕ, Option, List, [], ◌∷◌, get_elem?, lookup, has_key, Bool}
use koti.Base.Text.{Text, lit}

abbrev pub regs : List Text
regs =
    lit "zero"
    ∷ lit "ra"
    ∷ lit "sp"
    ∷ lit "gp"
    ∷ lit "tp"
    ∷ lit "t0"
    ∷ lit "t1"
    ∷ lit "t2"
    ∷ lit "s0"
    ∷ lit "s1"
    ∷ lit "a0"
    ∷ lit "a1"
    ∷ lit "a2"
    ∷ lit "a3"
    ∷ lit "a4"
    ∷ lit "a5"
    ∷ lit "a6"
    ∷ lit "a7"
    ∷ lit "s2"
    ∷ lit "s3"
    ∷ lit "s4"
    ∷ lit "s5"
    ∷ lit "s6"
    ∷ lit "s7"
    ∷ lit "s8"
    ∷ lit "s9"
    ∷ lit "s10"
    ∷ lit "s11"
    ∷ lit "t3"
    ∷ lit "t4"
    ∷ lit "t5"
    ∷ lit "t6"
    ∷ []

-- `REGS[i]`.
unfoldable pub reg : ℕ → Option Text
reg i = get_elem? regs i

abbrev pub csrs : List (ℕ × Text)
csrs =
    (0x100, lit "sstatus")
    ∷ (0x104, lit "sie")
    ∷ (0x105, lit "stvec")
    ∷ (0x106, lit "scounteren")
    ∷ (0x140, lit "sscratch")
    ∷ (0x141, lit "sepc")
    ∷ (0x142, lit "scause")
    ∷ (0x143, lit "stval")
    ∷ (0x144, lit "sip")
    ∷ (0x180, lit "satp")
    ∷ (0x300, lit "mstatus")
    ∷ (0x301, lit "misa")
    ∷ (0x302, lit "medeleg")
    ∷ (0x303, lit "mideleg")
    ∷ (0x304, lit "mie")
    ∷ (0x305, lit "mtvec")
    ∷ (0x306, lit "mcounteren")
    ∷ (0x30a, lit "menvcfg")
    ∷ (0x310, lit "mstatush")
    ∷ (0x340, lit "mscratch")
    ∷ (0x341, lit "mepc")
    ∷ (0x342, lit "mcause")
    ∷ (0x343, lit "mtval")
    ∷ (0x344, lit "mip")
    ∷ (0xb00, lit "mcycle")
    ∷ (0xb02, lit "minstret")
    ∷ (0xb80, lit "mcycleh")
    ∷ (0xb82, lit "minstreth")
    ∷ (0xc00, lit "cycle")
    ∷ (0xc01, lit "time")
    ∷ (0xc02, lit "instret")
    ∷ (0xc80, lit "cycleh")
    ∷ (0xc81, lit "timeh")
    ∷ (0xc82, lit "instreth")
    ∷ (0xf11, lit "mvendorid")
    ∷ (0xf12, lit "marchid")
    ∷ (0xf13, lit "mimpid")
    ∷ (0xf14, lit "mhartid")
    ∷ []

abbrev pub branch : List (ℕ × Text)
branch =
    (0, lit "beq")
    ∷ (1, lit "bne")
    ∷ (4, lit "blt")
    ∷ (5, lit "bge")
    ∷ (6, lit "bltu")
    ∷ (7, lit "bgeu")
    ∷ []

abbrev pub load : List (ℕ × Text)
load = (0, lit "lb") ∷ (1, lit "lh") ∷ (2, lit "lw") ∷ (4, lit "lbu") ∷ (5, lit "lhu") ∷ []

abbrev pub store : List (ℕ × Text)
store = (0, lit "sb") ∷ (1, lit "sh") ∷ (2, lit "sw") ∷ []

abbrev pub op_imm : List (ℕ × Text)
op_imm =
    (0, lit "addi")
    ∷ (2, lit "slti")
    ∷ (3, lit "sltiu")
    ∷ (4, lit "xori")
    ∷ (6, lit "ori")
    ∷ (7, lit "andi")
    ∷ []

abbrev pub op : List (ℕ × Text)
op =
    (0, lit "add")
    ∷ (1, lit "sll")
    ∷ (2, lit "slt")
    ∷ (3, lit "sltu")
    ∷ (4, lit "xor")
    ∷ (5, lit "srl")
    ∷ (6, lit "or")
    ∷ (7, lit "and")
    ∷ []

abbrev pub op_m : List (ℕ × Text)
op_m =
    (0, lit "mul")
    ∷ (1, lit "mulh")
    ∷ (2, lit "mulhsu")
    ∷ (3, lit "mulhu")
    ∷ (4, lit "div")
    ∷ (5, lit "divu")
    ∷ (6, lit "rem")
    ∷ (7, lit "remu")
    ∷ []

abbrev pub amo : List (ℕ × Text)
amo =
    (0x00, lit "amoadd.w")
    ∷ (0x01, lit "amoswap.w")
    ∷ (0x02, lit "lr.w")
    ∷ (0x03, lit "sc.w")
    ∷ (0x04, lit "amoxor.w")
    ∷ (0x08, lit "amoor.w")
    ∷ (0x0c, lit "amoand.w")
    ∷ (0x10, lit "amomin.w")
    ∷ (0x14, lit "amomax.w")
    ∷ (0x18, lit "amominu.w")
    ∷ (0x1c, lit "amomaxu.w")
    ∷ []

-- `table[k]` and `k in table`, shut so that a proof splits on a table only where it says so.
unfoldable pub entry : List (ℕ × Text) → ℕ → Option Text
entry table k = lookup k table

unfoldable pub has_entry : List (ℕ × Text) → ℕ → Bool
has_entry table k = has_key k table
