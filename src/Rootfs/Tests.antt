-- ===== src/Rootfs/Tests.antt =====
-- Runs of the model of sw/linux/check_rootfs.py on a small disk, and an instance of its theorem.
use koti.Base.{ℕ, ◌≡◌, refl, Option, none, some, List, [], ◌∷◌, ◌++◌, replicate, if◌then◌else◌}
use koti.Base.Text.{Text, codes, text_eq, lit}
use koti.Base.Number.{is_dec}
use koti.Rootfs.Verdict.{Disk, check_rootfs}
use koti.Rootfs.Table.{required_options}

abbrev config : List Text
config =
    codes "BR2_riscv=y"
    ∷ codes "BR2_RISCV_32=y"
    ∷ codes "BR2_RISCV_USE_MMU=y"
    ∷ codes "BR2_RISCV_ISA_RVM=y"
    ∷ codes "BR2_RISCV_ISA_RVA=y"
    ∷ codes "# BR2_RISCV_ISA_RVC is not set"
    ∷ codes "# BR2_RISCV_ISA_RVF is not set"
    ∷ codes "BR2_RISCV_ABI_ILP32=y"
    ∷ codes "# BR2_LINUX_KERNEL is not set"
    ∷ codes "# BR2_TARGET_OPENSBI is not set"
    ∷ codes "BR2_TARGET_ROOTFS_CPIO=y"
    ∷ codes "BR2_TOOLCHAIN_BUILDROOT_MUSL=y"
    ∷ codes "BR2_STATIC_LIBS=y"
    ∷ codes "BR2_ROOTFS_OVERLAY=\"../sw/linux/rootfs-overlay\""
    ∷ codes "BR2_PACKAGE_E2FSPROGS=y"
    ∷ []

abbrev elf : List ℕ
elf = 127 ∷ codes "ELF" ++ (1 ∷ 1 ∷ 1 ∷ replicate 11 0 ++ (243 ∷ replicate 33 0))

abbrev bytes_of : Text → Option (List ℕ)
bytes_of name =
    if text_eq name (codes "busybox")
    then some elf
    else if text_eq name (codes "notes")
    then some (codes "text")
    else none

abbrev disk : Disk
disk = record {
  lines = λ name. if text_eq name (codes ".config") then some config else none;
  bytes = bytes_of;
  size = λ name. some 2000000;
}

abbrev args : List Text
args = codes ".config" ∷ codes "notes" ∷ codes "--cpio" ∷ codes "rootfs.cpio" ∷ codes "busybox" ∷ []

-- The configuration alone, which takes no binaries.
config_passes : check_rootfs disk (codes "--config-only" ∷ codes ".config" ∷ []) ≡ some 0
unfolding check_rootfs lit required_options is_dec
config_passes = refl

binaries_refused : check_rootfs disk (codes "--config-only" ∷ args) ≡ some 2
unfolding check_rootfs lit required_options is_dec
binaries_refused = refl

-- Files without a binary among them do not pass, and `--cpio` without a name raises.
no_binary : check_rootfs disk (codes ".config" ∷ codes "notes" ∷ []) ≡ some 1
unfolding check_rootfs lit required_options is_dec
no_binary = refl

no_name : check_rootfs disk (codes ".config" ∷ codes "busybox" ∷ codes "--cpio" ∷ []) ≡ none
unfolding check_rootfs lit required_options is_dec
no_name = refl
