-- ===== src/Asm/Decoded.antt =====
-- The link between the assembler and tools/rvdis.py: a word with known fields is decoded by the case
-- of its opcode.
use koti.Base.{ℕ, ◌/◌, ◌%◌, ◌^◌, ◌<◌, ◌≡◌, arith, none, some, ap}
use koti.Base.Text.{Text, lit}
use native.Mathlib.Nat.{mod-eq_of_lt}
use koti.Rvdis.Tables.{reg}
use koti.Rvdis.Word.{Locals, locals, make_locals, get_rd, get_rs1, get_rs2, is_uncompressed}
use koti.Rvdis.Decode.{decode, decode_opcode}
use koti.Rvdis.Total.{reg-Returns}

pub reg_name : ℕ → Text
reg_name i = elim (reg i) [ none ↦ lit "" | some t ↦ t ]

pub reg-reg_name : (i : ℕ) → i < 32 → reg i ≡ some (reg_name i)
unfolding reg_name reg
reg-reg_name i h = let (t, e) = reg-Returns i h in rw e

pub record Fields : Type 0 where
  pub op : ℕ
  pub rd : ℕ
  pub rs1 : ℕ
  pub rs2 : ℕ
  pub f3 : ℕ
  pub f7 : ℕ

-- `w` is a 32-bit instruction with these fields.
pub record IsEncoded (w : ℕ) (f : Fields) : Type 0 where
  pub fits : w < 2 ^ 32
  pub wide : w % 2 ^ 2 ≡ 3
  pub op_eq : w % 2 ^ 7 ≡ f.op
  pub rd_eq : w / 2 ^ 7 % 2 ^ 5 ≡ f.rd
  pub f3_eq : w / 2 ^ 12 % 2 ^ 3 ≡ f.f3
  pub rs1_eq : w / 2 ^ 15 % 2 ^ 5 ≡ f.rs1
  pub rs2_eq : w / 2 ^ 20 % 2 ^ 5 ≡ f.rs2
  pub f7_eq : w / 2 ^ 25 % 2 ^ 7 ≡ f.f7

-- The local variables of `decode` at that word.
abbrev pub named : ℕ → ℕ → Fields → Locals
named pc w f = record {
  pc = pc;
  word = w;
  op = f.op;
  rd = f.rd;
  rs1 = f.rs1;
  rs2 = f.rs2;
  f3 = f.f3;
  f7 = f.f7;
  d = reg_name f.rd;
  s1 = reg_name f.rs1;
  s2 = reg_name f.rs2;
}

make_locals-named :
    (pc w : ℕ) (f : Fields)
    → IsEncoded w f
    → make_locals w pc (reg_name (get_rd w)) (reg_name (get_rs1 w)) (reg_name (get_rs2 w))
      ≡ named pc w f
unfolding get_rd get_rs1 get_rs2
make_locals-named pc w f e = rw (e.op_eq, e.rd_eq, e.f3_eq, e.rs1_eq, e.rs2_eq, e.f7_eq)

locals-named : (pc w : ℕ) (f : Fields) → IsEncoded w f → locals w pc ≡ some (named pc w f)
unfolding locals
locals-named pc w f e =
    rw
      (
        reg-reg_name (get_rd w) (unfold get_rd in omega arith),
        reg-reg_name (get_rs1 w) (unfold get_rs1 in omega arith),
        reg-reg_name (get_rs2 w) (unfold get_rs2 in omega arith),
      )
      (ap some (make_locals-named pc w f e))

pub decode-named :
    (pc w : ℕ) (f : Fields) → IsEncoded w f → decode w pc ≡ decode_opcode (named pc w f)
unfolding decode is_uncompressed
decode-named pc w f e =
    let whole : w % 2 ^ 32 ≡ w = mod-eq_of_lt e.fits in rw (whole, locals-named pc w f e, e.wide)
