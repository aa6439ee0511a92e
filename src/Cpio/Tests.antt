-- ===== src/Cpio/Tests.antt =====
-- Runs of the model of sw/linux/check_initramfs.py on concrete archives, and instances of its theorems.
use koti.Base.{
  ℕ, ◌≡◌, ◌≢◌, refl, arith, Bool, true, not, ◌==◌, ◌&&◌, List, [], ◌∷◌, ◌++◌, map, All, replicate,
}
use koti.Base.Int.{pos}
use koti.Base.Text.{lit, codes, text_eq}
use koti.Base.Number.{is_hex, digit_value}
use koti.Base.Strings.{int_prefixed, int_digits}
use koti.Cpio.Archive.{
  members, endless, read_cpio, read_loop, read_round, goes_on, is_magic, back, plus, align,
}
use koti.Cpio.Written.{Entry, fields, member_of}
use koti.Cpio.ReadBack.{write_archive, IsFile, IsTrailer, read_cpio-write_archive}
use koti.Cpio.Sample.{file, small-Fits}
use koti.Cpio.Ends.{IsPlain, read_cpio-ends, read_loop-endless}

abbrev init_file : Entry
init_file = file (codes "init") 33261 (codes "#!/bin/sh\n")

abbrev inittab : Entry
inittab = file (codes "etc/inittab") 33188 (codes "tty1::respawn:/sbin/getty")

abbrev two_files : List Entry
two_files = init_file ∷ inittab ∷ []

abbrev ending : Entry
ending = file (codes "TRAILER!!!") 0 []

two_files-IsFile : All IsFile two_files
unfolding text_eq lit
two_files-IsFile =
    ((small-Fits (fields init_file) refl, refl), ((small-Fits (fields inittab) refl, refl), tt))

ending-IsTrailer : IsTrailer ending
unfolding text_eq lit
ending-IsTrailer = (small-Fits (fields ending) refl, refl)

read_cpio-write_archive_example :
    read_cpio (write_archive two_files ending (replicate 300 0)) ≡ members (map member_of two_files)
read_cpio-write_archive_example =
    read_cpio-write_archive two_files ending (replicate 300 0) two_files-IsFile ending-IsTrailer

read_two_files : read_cpio (write_archive two_files ending []) ≡ members (map member_of two_files)
unfolding read_cpio write_archive lit is_magic int_prefixed int_digits is_hex back plus digit_value
    align
read_two_files = refl

abbrev no_minus : List ℕ → Bool
no_minus [] = true
no_minus (c ∷ s) = not (c == b'-') && no_minus s

no_minus-IsPlain : (s : List ℕ) → no_minus s ≡ true → IsPlain s
no_minus-IsPlain [] h = tt
no_minus-IsPlain (c ∷ s) h = (ground arith, no_minus-IsPlain s (ground arith))

abbrev small_archive : List ℕ
small_archive = codes "07070100000000000081A4" ++ replicate 90 b'0'

read_cpio-ends_example : read_cpio small_archive ≢ endless
read_cpio-ends_example = read_cpio-ends small_archive (no_minus-IsPlain small_archive refl)

-- A header whose size of the body is -112: the loop comes back to it for ever.
abbrev going_back : List ℕ
going_back =
    codes "07070100000000000081A400000000000000000000000100000000-0000070" ++ replicate 50 b'0'

going_back_round :
    read_round going_back (pos 0)
    ≡ goes_on (record { name = []; mode = pos 33188; body = [] }) (pos 0)
unfolding read_round lit is_magic int_prefixed int_digits is_hex back plus digit_value align
going_back_round = refl

going_back_endless : (fuel : ℕ) → read_loop fuel going_back (pos 0) ≡ endless
going_back_endless = read_loop-endless going_back (pos 0) _ going_back_round
