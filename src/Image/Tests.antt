-- ===== src/Image/Tests.antt =====
-- Runs of the model of sw/linux/check_initramfs.py on a small archive that it passes, and instances of its
-- theorems.
use koti.Base.{ℕ, ◌≡◌, refl, none, some, List, [], ◌∷◌, ◌++◌, map, length, replicate}
use koti.Base.Text.{Text, lit, codes, text_eq, dec}
use koti.Cpio.Archive.{Member}
use koti.Cpio.Written.{Entry, member_of}
use koti.Cpio.ReadBack.{write_archive}
use koti.Cpio.Sample.{file}
use koti.Image.Elf.{elf_facts, elf_facts_bytes}
use koti.Image.Problem.{Host}
use koti.Image.Verdict.{write_provenance}
use koti.Image.Facts.{elf_facts-elf_facts_bytes}
use koti.Image.Quoted.{Item, plain, escaped, written, has_newline, breaks-written}
use koti.Image.Sends.{breaks, fat_lines}

abbrev init_text : Text
init_text = codes "#!/bin/sh\nexec switch_root /r # root stays in RAM\n"

abbrev s99_text : Text
s99_text = codes "#!/bin/sh\nsend \"a=1\"\necho koti: up\n"

abbrev elf : List ℕ
elf = 127 ∷ codes "ELF" ++ (1 ∷ 1 ∷ 1 ∷ replicate 11 0 ++ (243 ∷ replicate 33 0))

abbrev busybox : Entry
busybox = file (codes "bin/busybox") 33261 elf

abbrev console : Entry
console = file (codes "dev/console") 8576 []

abbrev s99 : Entry
s99 = file (codes "etc/init.d/S99koti") 33261 s99_text

abbrev inittab : Entry
inittab = file (codes "etc/inittab") 33188 (codes "tty1::respawn:getty\nhvc0::respawn:getty\n")

abbrev init_file : Entry
init_file = file (codes "init") 33261 init_text

abbrev sbin_init : Entry
sbin_init = file (codes "sbin/init") 41471 (codes "busybox")

abbrev switch_root : Entry
switch_root = file (codes "sbin/switch_root") 41471 (codes "busybox")

abbrev ending : Entry
ending = file (codes "TRAILER!!!") 0 []

abbrev files : List Entry
files = busybox ∷ console ∷ s99 ∷ inittab ∷ init_file ∷ sbin_init ∷ switch_root ∷ []

abbrev ms : List Member
ms = map member_of files

abbrev blob : List ℕ
blob = write_archive files ending []

-- The hash of these runs is the length, and the shell parses every script.
abbrev bare : Host
bare = record {
  tb_boot = some (codes "  localparam [8*MARKLEN-1:0] MARKER = \"koti: up\";");
  overlay = some (
      record { rel = codes "etc/init.d/S99koti"; bytes = s99_text }
      ∷ record { rel = codes "init"; bytes = init_text }
      ∷ []);
  fragment = codes "BR2_riscv=y";
  provenance = none;
  sha = λ bytes. dec (length bytes);
  sh = some (λ script. none);
}

abbrev host : Host
host = record bare { provenance = some (write_provenance bare blob) }

elf_facts-elf_facts_bytes_example : elf_facts elf ≡ elf_facts_bytes elf
elf_facts-elf_facts_bytes_example = elf_facts-elf_facts_bytes elf

elf_read : elf_facts elf ≡ some (record { ei_class = 1; machine = 243; flags = 0 })
unfolding elf_facts lit text_eq
elf_read = refl

-- `a=\"b`, a newline, and `c`.
abbrev word : List Item
word = plain b'a' ∷ plain b'=' ∷ escaped b'"' ∷ plain b'b' ∷ plain b'\n' ∷ plain b'c' ∷ []

breaks-written_example : breaks b'"' (written word ++ b'"' ∷ codes "; s=1") ≡ has_newline word
breaks-written_example =
    breaks-written word (codes "; s=1")
      ((refl, refl), ((refl, refl), (tt, ((refl, refl), ((refl, refl), ((refl, refl), tt))))))

-- 58 characters of two bytes each pass, though they are echoed by more than 64 bytes.
wide_payload : fat_lines 1 ((codes "send \"" ++ (replicate 58 233 ++ codes "\"")) ∷ []) ≡ []
unfolding fat_lines lit
wide_payload = refl
