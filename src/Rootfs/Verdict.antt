-- ===== src/Rootfs/Verdict.antt =====
-- `main` of sw/linux/check_rootfs.py, over the files that it is given.
use koti.Base.{
  ℕ, suc, ◌*◌, Option, none, some, Bool, false, ◌==◌, leb, ◌||◌, ◌>>=◌, List, [], ◌∷◌, ◌++◌,
  if◌then◌else◌,
}
use koti.Base.Text.{Text, codes, text_eq}
use koti.Config.Parse.{Parsed, get, is_seen}
use koti.Image.Elf.{Reason, elf_facts, elf_problems}
use koti.Rootfs.Table.{required_options}
use koti.Rootfs.Parse.{parse_options, Options, read_args}

-- An entry of `bad`, with what it names.
pub data Complaint : Type 0 where
  absent : Text → Complaint
  unmet : Text → Text → Option Text → Complaint
  bad_binary : Text → Reason → Complaint
  over_budget : ℕ → Complaint

-- `ok`, of a symbol that the configuration mentions.
unfoldable pub meets : Option Text → Text → Bool
unfolding text_eq
meets none want = text_eq want (codes "n") || text_eq want (codes "n?")
meets (some got) want =
    if text_eq want (codes "n") || text_eq want (codes "n?") then false else text_eq got want

unfoldable pub symbol_complaints : Parsed → Text × Text → List Complaint
unfolding is_seen get text_eq meets
symbol_complaints p (sym, want) =
    if is_seen p.seen sym
    then (if meets (get p.values sym) want then [] else unmet sym want (get p.values sym) ∷ [])
    else (if text_eq want (codes "n?") then [] else absent sym ∷ [])

unfoldable pub config_complaints : Parsed → List (Text × Text) → List Complaint
unfolding symbol_complaints
config_complaints p [] = []
config_complaints p (r ∷ rs) = symbol_complaints p r ++ config_complaints p rs

unfoldable pub said_of : Text → List Reason → List Complaint
said_of name [] = []
said_of name (r ∷ rs) = bad_binary name r ∷ said_of name rs

-- The loop over the binaries: how many are one, and what is said against them. The file is `none`
-- where it cannot be read, which Python raises.
unfoldable pub check_binaries : (Text → Option (List ℕ)) → List Text → Option (ℕ × List Complaint)
unfolding elf_facts elf_problems said_of
check_binaries disk [] = some (0, [])
check_binaries disk (name ∷ names) = do
  blob ← disk name
  (checked, bad) ← check_binaries disk names
  some (elim (elf_facts blob) [
    | none ↦ (checked, bad)
    | some f ↦ (suc checked, said_of name (elf_problems f) ++ bad)
  ])

unfoldable pub size_complaints : Option ℕ → List Complaint
size_complaints none = []
size_complaints (some size) = if leb size (2560 * 1024) then [] else over_budget size ∷ []

-- The exit code at the end.
unfoldable pub exit_code : List Complaint → ℕ
exit_code [] = 0
exit_code (c ∷ bad) = 1

-- The files of the disk: a configuration by its lines, a binary by its bytes, an archive by its size.
pub record Disk : Type 0 where
  pub lines : Text → Option (List Text)
  pub bytes : Text → Option (List ℕ)
  pub size : Text → Option ℕ

unfoldable pub cpio_size : Disk → Option Text → Option (Option ℕ)
cpio_size disk none = some none
cpio_size disk (some cpio) = do size ← disk.size cpio; some (some size)

-- With the configuration read.
unfoldable pub check_built : Disk → List Text → Option Text → List Complaint → Option ℕ
unfolding check_binaries cpio_size size_complaints exit_code
check_built disk binaries cpio bad = do
  (checked, more) ← check_binaries disk.bytes binaries
  size ← cpio_size disk cpio
  some (if checked == 0 then 1 else exit_code (bad ++ (more ++ size_complaints size)))

unfoldable pub check_options : Disk → Options → Option ℕ
unfolding parse_options config_complaints check_built exit_code
check_options disk o = elim o.files [
  | [] ↦ some 2
  | config ∷ [] ↦
      if o.config_only
      then (do
        lines ← disk.lines config
        some (exit_code (config_complaints (parse_options lines) required_options)))
      else some 2
  | config ∷ b ∷ binaries ↦ if o.config_only then some 2 else (do
    lines ← disk.lines config
    check_built disk (b ∷ binaries) o.cpio
        (config_complaints (parse_options lines) required_options))
]

-- The exit code of `main`; `none` is that Python raises.
unfoldable pub check_rootfs : Disk → List Text → Option ℕ
unfolding read_args check_options
check_rootfs disk args = do o ← read_args args; check_options disk o
