-- ===== src/Image/Problem.antt =====
-- The list `bad` of sw/linux/check_initramfs.py, and what the program finds on its host.
use koti.Base.{ℕ, Option, List}
use koti.Base.Text.{Text}
use koti.Image.Elf.{Reason}

-- A message of `bad`, as its kind with what it names.
pub data Problem : Type 0 where
  too_big : ℕ → Problem
  missing : Text → Problem
  not_char_device : Problem
  not_executable : Text → Problem
  no_marker : Problem
  init_lacks : Text → Problem
  has_cr : ℕ → Problem
  no_shebang : Problem
  bad_elf : Text → List Reason → Problem
  extra_interfaces : List Text → Problem
  no_getty : Text → List Text → Problem
  not_in_cpio : Text → Problem
  differs : Text → Problem
  bad_shell : Text → Text → Problem
  newline_sends : Text → List ℕ → Problem
  fat_sends : Text → List (ℕ × ℕ × Text) → Problem
  no_provenance : Problem
  wrong_hash : Text → Problem

-- A file of the overlay: its path below the overlay and its bytes.
pub record File : Type 0 where
  pub rel : Text
  pub bytes : List ℕ

-- The record beside the archive: `rec.get` of its two keys.
pub record Provenance : Type 0 where
  pub cpio_sha256 : Option Text
  pub fragment_sha256 : Option Text

-- The files around the archive, where `none` is one that does not exist, and the programs that are not
-- of this repository: SHA-256 in hexadecimal, and the host's `sh -n`, which says nothing on a script
-- that it can parse.
pub record Host : Type 0 where
  pub tb_boot : Option Text
  pub overlay : Option (List File)
  pub fragment : List ℕ
  pub provenance : Option Provenance
  pub sha : List ℕ → Text
  pub sh : Option (List ℕ → Option Text)
