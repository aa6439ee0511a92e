-- ===== src/Rootfs/Passes.antt =====
-- What sw/linux/check_rootfs.py shows of a userspace that it passes.
use koti.Base.{ℕ, ◌*◌, ◌≤◌, ◌≡◌, Option, none, some, true, false, List, [], ◌∷◌, All}
use koti.Base.Text.{Text}
use koti.Rootfs.Table.{required_options}
use koti.Rootfs.Parse.{parse_options, Options}
use koti.Rootfs.Verdict.{Disk}
use koti.Rootfs.Granted.{Grants, AllRun, HasBinary}

-- What is shown of the files of a run: the configuration's lines, and with them, unless the run was for
-- the configuration alone, the binaries and the size of the archive.
abbrev pub FitsBudget : Disk → Option Text → Type 0
FitsBudget disk none = Unit
FitsBudget disk (some cpio) = (size : ℕ) × (disk.size cpio ≡ some size) × (size ≤ 2560 * 1024)

abbrev pub GrantsAll : Disk → Text → Type 0
GrantsAll disk config =
    (lines : List Text) × (disk.lines config ≡ some lines)
    × All (Grants (parse_options lines)) required_options

abbrev pub IsGood : Disk → Options → Type 0
IsGood disk o = elim o.files [
  | [] ↦ ⊥
  | config ∷ binaries ↦ elim o.config_only [
    | true ↦ GrantsAll disk config × (binaries ≡ [])
    | false ↦
        GrantsAll disk config
        × AllRun disk binaries
        × HasBinary disk binaries
        × FitsBudget disk o.cpio
  ]
]
