-- ===== src/Cpio/Sample.antt =====
-- Entries of small cpio archives for the runs of sw/linux/check_initramfs.py.
use koti.Base.{ℕ, ◌^◌, ◌≡◌, arith, Bool, true, ltb, ltb→lt, ◌&&◌, List, [], ◌∷◌}
use koti.Base.Text.{Text}
use koti.Cpio.Slices.{Fits}
use koti.Cpio.Written.{Entry}

abbrev pub file : Text → ℕ → List ℕ → Entry
file name mode body = record {
  name = name;
  mode = mode;
  body = body;
  ino = 721;
  uid = 0;
  gid = 0;
  nlink = 1;
  mtime = 1786000000;
  devmajor = 3;
  devminor = 1;
  rdevmajor = 0;
  rdevminor = 0;
  check = 0;
}

abbrev pub all_small : List ℕ → Bool
all_small [] = true
all_small (v ∷ vs) = ltb v (2 ^ 32) && all_small vs

pub small-Fits : (vs : List ℕ) → all_small vs ≡ true → Fits vs
small-Fits [] h = tt
small-Fits (v ∷ vs) h = (ltb→lt v (2 ^ 32) (ground arith), small-Fits vs (ground arith))
