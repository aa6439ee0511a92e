-- ===== src/Config/Table.antt =====
-- `REQUIRED` of sw/linux/check_config.py: the symbols of the kernel configuration and what koti wants
-- of each.
use koti.Base.{List, [], ◌∷◌}
use koti.Base.Text.{Text, codes}

unfoldable pub required : List (Text × Text)
required =
    (codes "CONFIG_ARCH_RV32I", codes "y")
    ∷ (codes "CONFIG_32BIT", codes "y")
    ∷ (codes "CONFIG_NONPORTABLE", codes "y")
    ∷ (codes "CONFIG_MMU", codes "y")
    ∷ (codes "CONFIG_RISCV_ISA_C", codes "n")
    ∷ (codes "CONFIG_EFI", codes "n")
    ∷ (codes "CONFIG_FPU", codes "n")
    ∷ (codes "CONFIG_SMP", codes "n")
    ∷ (codes "CONFIG_STRICT_KERNEL_RWX", codes "n")
    ∷ (codes "CONFIG_RISCV_SBI", codes "y")
    ∷ (codes "CONFIG_RISCV_SBI_V01", codes "y")
    ∷ (codes "CONFIG_HVC_RISCV_SBI", codes "y")
    ∷ (codes "CONFIG_SERIAL_EARLYCON_RISCV_SBI", codes "y")
    ∷ (codes "CONFIG_RISCV_TIMER", codes "y")
    ∷ (codes "CONFIG_RISCV_INTC", codes "y")
    ∷ (codes "CONFIG_SIFIVE_PLIC", codes "y")
    ∷ (codes "CONFIG_CMDLINE", codes "\"\"")
    ∷ (codes "CONFIG_CMDLINE_FORCE", codes "n?")
    ∷ (codes "CONFIG_CRYPTO", codes "y")
    ∷ (codes "CONFIG_CRYPTO_MANAGER_DISABLE_TESTS", codes "y")
    ∷ (codes "CONFIG_OF", codes "y")
    ∷ (codes "CONFIG_BLK_DEV_INITRD", codes "y")
    ∷ (codes "CONFIG_BINFMT_ELF", codes "y")
    ∷ (codes "CONFIG_I2C", codes "y")
    ∷ (codes "CONFIG_I2C_ALGOBIT", codes "y")
    ∷ (codes "CONFIG_I2C_KOTI", codes "y")
    ∷ (codes "CONFIG_I2C_CHARDEV", codes "y")
    ∷ (codes "CONFIG_RTC_CLASS", codes "y")
    ∷ (codes "CONFIG_RTC_DRV_DS1307", codes "y")
    ∷ (codes "CONFIG_RTC_HCTOSYS", codes "y")
    ∷ (codes "CONFIG_RTC_HCTOSYS_DEVICE", codes "\"rtc0\"")
    ∷ (codes "CONFIG_REGMAP_I2C", codes "y")
    ∷ (codes "CONFIG_PRINTK", codes "y")
    ∷ (codes "CONFIG_PRINTK_TIME", codes "y")
    ∷ []
