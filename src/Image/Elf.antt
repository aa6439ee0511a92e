-- ===== src/Image/Elf.antt =====
-- `elf_facts_bytes` of sw/linux/check_initramfs.py, `elf_facts` and `describe_flags` of
-- sw/linux/check_rootfs.py, and what the two programs say against a binary.
use koti.Base.{
  ℕ, ◌-◌, ◌/◌, ◌%◌, Option, none, some, not, ◌==◌, ltb, ◌||◌, List, [], ◌∷◌, ◌++◌, length, take,
  drop, get_elem?, if◌then◌else◌, ◌>>=◌,
}
use koti.Base.Text.{text_eq, lit}
use koti.Base.Bytes.{from_le}

pub record Facts : Type 0 where
  pub ei_class : ℕ
  pub machine : ℕ
  pub flags : ℕ

-- The three numbers of a header that is long enough. A slice reads what `struct.unpack_from` reads.
unfoldable pub unpack : List ℕ → Option Facts
unfolding from_le
unpack blob = do
  ei_class ← get_elem? blob 4
  let machine = from_le (take 2 (drop 18 blob))
  let flags = from_le (take 4 (drop (if ei_class == 1 then 36 else 48) blob))
  some (record { ei_class = ei_class; machine = machine; flags = flags })

unfoldable pub elf_facts_bytes : List ℕ → Option Facts
unfolding unpack
elf_facts_bytes blob =
    if ltb (length blob) 52 || not (text_eq (take 4 blob) (127 ∷ lit "ELF"))
    then none
    else unpack blob

-- `elf_facts` reads the first 64 bytes of the file.
unfoldable pub elf_facts : List ℕ → Option Facts
unfolding unpack
elf_facts file =
    let blob = take 64 file in
    if ltb (length blob) 52 || not (text_eq (take 4 blob) (127 ∷ lit "ELF"))
    then none
    else unpack blob

pub data Flag : Type 0 where
  rvc : Flag
  float_single : Flag
  float_double : Flag
  unrecognised : ℕ → Flag

-- The list `bits`.
unfoldable pub describe_flags : ℕ → List Flag
describe_flags flags =
    (if flags % 2 == 0 then [] else rvc ∷ [])
    ++ ((if flags / 2 % 2 == 0 then [] else float_single ∷ [])
        ++ ((if flags / 4 % 2 == 0 then [] else float_double ∷ [])
            ++ (if flags - flags % 8 == 0 then [] else unrecognised (flags - flags % 8) ∷ [])))

pub data Reason : Type 0 where
  not_elf32 : ℕ → Reason
  not_riscv : ℕ → Reason
  flagged : ℕ → List Flag → Reason

-- The list `why` of the one program, and `problems` of the other.
unfoldable pub elf_problems : Facts → List Reason
unfolding describe_flags
elf_problems f =
    (if f.ei_class == 1 then [] else not_elf32 f.ei_class ∷ [])
    ++ ((if f.machine == 243 then [] else not_riscv f.machine ∷ [])
        ++ (if f.flags == 0 then [] else flagged f.flags (describe_flags f.flags) ∷ []))
