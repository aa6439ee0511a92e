-- ===== src/Rvdis/Tests.antt =====
-- Instructions of test/test_rvdis.py run through `decode`, and the theorems about `decode`, `_sext`
-- and `walk` at concrete inputs.
use koti.Base.{
  ℕ, ◌≡◌, refl, ◌^◌, ◌%◌, ◌-◌, ◌/◌, arith, Option, none, some, ◌>>=◌, List, [], ◌∷◌, length,
}
use koti.Base.Text
use koti.Base.Text.{Text, lit}
use koti.Base.Int.{mask, ◌+ℤ◌}
use koti.Rvdis.Tables
use koti.Rvdis.Word
use koti.Rvdis.Word.{Insn, sext, imm_i, imm_s, imm_b, imm_j, jump_target}
use koti.Rvdis.Flow
use koti.Rvdis.Arithmetic
use koti.Rvdis.Memory
use koti.Rvdis.System
use koti.Rvdis.Decode
use koti.Rvdis.Decode.{decode}
use koti.Rvdis.Extend.{Fits, sext_lem}
use koti.Rvdis.Total.{decode-Returns}
use koti.Rvdis.Walk.{walk, start_offset}
use koti.Rvdis.Listing.{IsListing, due, walk-IsListing}

-- The text of a decoded word; its line opens the whole decoder.
text_of : ℕ → ℕ → Option Text
unfolding decode mask ◌+ℤ◌ Word.locals Tables.reg Word.get_rd Word.get_rs1 Word.get_rs2
    Word.is_uncompressed Decode.decode_opcode Word.bad Tables.entry Tables.has_entry lit
    Text.text_eq Text.repeat_text Text.hex Text.dec_ℤ Text.hex8 Word.sext Word.imm_i Word.imm_s
    Word.imm_b Word.imm_j Word.jump_target Flow.decode_jal Flow.decode_jalr Flow.decode_branch
    Flow.has_zero_form Arithmetic.decode_upper Arithmetic.op_imm_text Arithmetic.decode_op_imm
    Arithmetic.three_regs Arithmetic.decode_op Memory.decode_load Memory.decode_store
    Memory.decode_fence Memory.ordering_suffix Memory.amo_text Memory.decode_amo System.csr_name
    System.decode_privileged System.decode_csr_read System.decode_csr_write System.decode_system
text_of w pc = do i ← decode w pc; some i.text

golden_atomics :
    (text_of 0x1ac5a52f 0 ≡ some (lit "sc.w.rl a0,a2,(a1)"))
    × (text_of 0xe13a292f 0 ≡ some (lit "amomaxu.w s2,s3,(s4)"))
    × (text_of 0x0000100f 0 ≡ some (lit "fence.i"))
unfolding text_of
golden_atomics = (refl, refl, refl)

golden_flow :
    (text_of 0x00c5fc63 0x1c ≡ some (lit "bgeu a1,a2,34"))
    × (text_of 0x7fd0006f 0 ≡ some (lit "j ffc"))
    × (text_of 0x00008067 0 ≡ some (lit "ret"))
unfolding text_of
golden_flow = (refl, refl, refl)

golden_immediates :
    (text_of 0xffd5c503 0 ≡ some (lit "lbu a0,-3(a1)"))
    × (text_of 0x00c69323 0 ≡ some (lit "sh a2,6(a3)"))
    × (text_of 0xfff5c513 0 ≡ some (lit "not a0,a1"))
    × (text_of 0x4075d513 0 ≡ some (lit "srai a0,a1,0x7"))
unfolding text_of
golden_immediates = (refl, refl, refl, refl)

golden_system :
    (text_of 0x18079073 0 ≡ some (lit "csrw satp,a5"))
    × (text_of 0xc0102573 0 ≡ some (lit "rdtime a0"))
    × (text_of 0x10016073 0 ≡ some (lit "csrsi sstatus,2"))
    × (text_of 0x00004501 0 ≡ some (lit ".word 0x00004501  # not a 32-bit insn"))
unfolding text_of
golden_system = (refl, refl, refl, refl)

sext_lem_example : Fits 11 (sext 0xffd 12) × (mask (sext 0xffd 12) (2 ^ 12) ≡ 0xffd)
sext_lem_example = sext_lem 11 0xffd (omega arith)

decode-Returns_example :
    (i : Insn) × (decode 0x00008067 0x40 ≡ some i) × (i.pc ≡ 0x40) × (i.word ≡ 0x00008067 % 2 ^ 32)
decode-Returns_example = decode-Returns 0x00008067 0x40

-- `nop; ebreak; ret` and a stray byte.
abbrev three_words : List ℕ
three_words = 0x13 ∷ 0 ∷ 0 ∷ 0 ∷ 0x73 ∷ 0 ∷ 0x10 ∷ 0 ∷ 0x67 ∷ 0x80 ∷ 0 ∷ 0 ∷ 0xff ∷ []

walk-IsListing_example :
    (xs : List Insn) × (walk three_words 0xc0000000 (some 0xc0000004) (some 16) none ≡ some xs)
    × IsListing three_words 0xc0000000 4 (due 0 (some 16) ((length three_words - 4) / 4)) none xs
walk-IsListing_example =
    walk-IsListing three_words 0xc0000000 4 (some 0xc0000004) (some 16) none inside
  where
    inside : start_offset three_words 0xc0000000 (some 0xc0000004) ≡ some 4
    inside = unfold start_offset in refl
