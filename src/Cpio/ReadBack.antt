-- ===== src/Cpio/ReadBack.antt =====
-- `read_cpio` of sw/linux/check_initramfs.py reads back the archives that a writer of the format makes.
use koti.Base.{
  ℕ, zero, suc, ◌%◌, ◌≤◌, ◌<◌, ◌≡◌, refl, sym, ◌∙◌, arith, true, false, List, [], ◌∷◌, ◌++◌, length,
  map, All, length-append, append_assoc,
}
use koti.Base.Int.{pos}
use koti.Base.Text.{text_eq}
use koti.Cpio.Archive.{members, trailer, read_loop, read_cpio, with_member}
use koti.Cpio.Slices.{Fits}
use koti.Cpio.Written.{
  Entry, fields, write_entry, member_of, read_round-entry, read_round-trailer, behind-aligned,
  newc_magic, length-newc_magic,
}

-- An archive: its files, the entry that ends it, and what follows that.
unfoldable pub write_archive : List Entry → Entry → List ℕ → List ℕ
unfolding write_entry
write_archive [] last rest = write_entry last ++ rest
write_archive (e ∷ es) last rest = write_entry e ++ write_archive es last rest

-- The header's numbers fit 32 bits, and the name is not that of the trailer.
abbrev pub IsFile : Entry → Type 0
IsFile e = Fits (fields e) × (text_eq e.name trailer ≡ false)

abbrev pub IsTrailer : Entry → Type 0
IsTrailer e = Fits (fields e) × (text_eq e.name trailer ≡ true)

module _ (last : Entry) (end : IsTrailer last) (rest : List ℕ) where
  read_loop-archive :
      (es : List Entry) (fuel : ℕ) (pre bytes : List ℕ)
      → All IsFile es
      → bytes ≡ pre ++ write_archive es last rest
      → length pre % 4 ≡ 0
      → length es < fuel
      → read_loop fuel bytes (pos (length pre)) ≡ members (map member_of es)
  unfolding read_loop write_archive with_member
  read_loop-archive es zero pre bytes h at aligned enough = absurd (omega arith)
  read_loop-archive [] (suc fuel) pre bytes h at aligned enough =
      rw (read_round-trailer pre rest bytes last at aligned end.0 end.1, read_loop) refl
  read_loop-archive (e ∷ es) (suc fuel) pre bytes h at aligned enough =
      let more = write_archive es last rest in
      let behind =
        read_loop-archive es fuel (pre ++ write_entry e) bytes h.1
          (at ∙ sym (append_assoc pre (write_entry e) more))
          (behind-aligned pre more bytes e at aligned h.0.0) (omega (arith, enough)) in
      rw (read_round-entry pre more bytes e at aligned h.0.0 h.0.1, read_loop, behind) refl

length-write_entry-pos : (e : Entry) → 1 ≤ length (write_entry e)
unfolding write_entry
length-write_entry-pos e = omega (arith, length-newc_magic, length-append newc_magic _)

length-write_archive-le :
    (es : List Entry) (last : Entry) (rest : List ℕ)
    → length es ≤ length (write_archive es last rest)
unfolding write_archive
length-write_archive-le [] last rest = omega arith
length-write_archive-le (e ∷ es) last rest = omega (
  arith,
  length-append (write_entry e) (write_archive es last rest),
  length-write_entry-pos e,
  length-write_archive-le es last rest,
)

-- An archive of files whose numbers fit their fields, ended by a trailer, is read back: every file with its
-- name, its mode and its bytes, in order, whatever follows the trailer.
pub read_cpio-write_archive :
    (es : List Entry) (last : Entry) (rest : List ℕ)
    → All IsFile es
    → IsTrailer last
    → read_cpio (write_archive es last rest) ≡ members (map member_of es)
unfolding read_cpio
read_cpio-write_archive es last rest h end =
    read_loop-archive last end rest es (suc (length (write_archive es last rest))) []
      (write_archive es last rest) h refl refl (omega (arith, length-write_archive-le es last rest))
