-- ===== src/Rootfs/Table.antt =====
-- `REQUIRED` of sw/linux/check_rootfs.py.
use koti.Base.{List, [], ◌∷◌}
use koti.Base.Text.{Text, codes}

-- A symbol and the value that is wanted of it.
unfoldable pub required_options : List (Text × Text)
required_options =
    (codes "BR2_riscv", codes "y")
    ∷ (codes "BR2_RISCV_32", codes "y")
    ∷ (codes "BR2_RISCV_USE_MMU", codes "y")
    ∷ (codes "BR2_RISCV_ISA_RVM", codes "y")
    ∷ (codes "BR2_RISCV_ISA_RVA", codes "y")
    ∷ (codes "BR2_RISCV_ISA_RVC", codes "n")
    ∷ (codes "BR2_RISCV_ISA_RVF", codes "n")
    ∷ (codes "BR2_RISCV_ISA_RVD", codes "n?")
    ∷ (codes "BR2_RISCV_ABI_ILP32", codes "y")
    ∷ (codes "BR2_LINUX_KERNEL", codes "n")
    ∷ (codes "BR2_TARGET_OPENSBI", codes "n")
    ∷ (codes "BR2_TARGET_ROOTFS_CPIO", codes "y")
    ∷ (codes "BR2_TOOLCHAIN_BUILDROOT_MUSL", codes "y")
    ∷ (codes "BR2_STATIC_LIBS", codes "y")
    ∷ (codes "BR2_ROOTFS_OVERLAY", codes "../sw/linux/rootfs-overlay")
    ∷ (codes "BR2_PACKAGE_E2FSPROGS", codes "y")
    ∷ []
