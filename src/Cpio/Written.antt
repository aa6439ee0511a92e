-- ===== src/Cpio/Written.antt =====
-- Cpio archives of the format newc as the kernel's and GNU's writers lay them out, and the theorem that
-- `read_cpio` of sw/linux/check_initramfs.py reads them back.
use koti.Base.{
  ℕ, ◌+◌, ◌-◌, ◌%◌, ◌≡◌, refl, sym, ap, ◌∙◌, arith, some, true, false, List, [], ◌∷◌, ◌++◌, length,
  map, replicate, length-append, length-replicate, append_assoc,
}
use koti.Base.Int.{pos, ltb_ℤ}
use koti.Base.Text.{lit, text_eq}
use koti.Cpio.Archive.{
  Member, members, forward, back, plus, align, slice, sizes, is_magic, trailer, name_end, body_at,
  goes_on, ends, read_body, read_sizes, read_round, read_fields,
}
use koti.Cpio.Slices.{slice_lem, hex_fields, length-hex_fields, Fits, read_fields-hex}

-- A file of the archive with what the header says of it besides the two sizes.
pub record Entry : Type 0 where
  pub name : List ℕ
  pub mode : ℕ
  pub body : List ℕ
  pub ino : ℕ
  pub uid : ℕ
  pub gid : ℕ
  pub nlink : ℕ
  pub mtime : ℕ
  pub devmajor : ℕ
  pub devminor : ℕ
  pub rdevmajor : ℕ
  pub rdevminor : ℕ
  pub check : ℕ

-- The header's numbers, of a name that is followed by a zero byte.
abbrev pub fields : Entry → List ℕ
fields e =
    e.ino
    ∷ e.mode
    ∷ e.uid
    ∷ e.gid
    ∷ e.nlink
    ∷ e.mtime
    ∷ length e.body
    ∷ e.devmajor
    ∷ e.devminor
    ∷ e.rdevmajor
    ∷ e.rdevminor
    ∷ (length e.name + 1)
    ∷ e.check
    ∷ []

-- Zeros up to a multiple of four.
unfoldable pub padding : ℕ → List ℕ
padding n = replicate ((4 - n % 4) % 4) 0

abbrev pub newc_magic : List ℕ
newc_magic = lit "070701"

unfoldable pub write_entry : Entry → List ℕ
unfolding padding hex_fields
write_entry e =
    newc_magic
    ++ (hex_fields (fields e)
        ++ (e.name
            ++ (0 ∷ [] ++ (padding (111 + length e.name) ++ (e.body ++ padding (length e.body))))))

length-padding : (n : ℕ) → length (padding n) ≡ (4 - n % 4) % 4
unfolding padding
length-padding n = length-replicate {A = ℕ} ((4 - n % 4) % 4) 0

pub length-newc_magic : length newc_magic ≡ 6
unfolding lit
length-newc_magic = refl

newc_magic-is_magic : is_magic newc_magic ≡ true
unfolding is_magic lit text_eq
newc_magic-is_magic = refl

abbrev pub member_of : Entry → Member
member_of e = record { name = e.name; mode = pos e.mode; body = e.body }

-- One member in the middle of an archive, at an offset that is a multiple of four.
module _ (pre rest bytes : List ℕ) (e : Entry) (at : bytes ≡ pre ++ (write_entry e ++ rest))
    (aligned : length pre % 4 ≡ 0) (fits : Fits (fields e)) where
  abbrev header_text : List ℕ
  header_text = hex_fields (fields e)

  abbrev gap : List ℕ
  gap = padding (111 + length e.name)

  abbrev tail : List ℕ
  tail = padding (length e.body) ++ rest

  abbrev before_name : List ℕ
  before_name = pre ++ (newc_magic ++ header_text)

  abbrev before_body : List ℕ
  before_body = before_name ++ (e.name ++ (0 ∷ [] ++ gap))

  from_magic :
      bytes
      ≡ pre ++ (newc_magic ++ (header_text ++ (e.name ++ (0 ∷ [] ++ (gap ++ (e.body ++ tail))))))
  unfolding write_entry
  from_magic = at ∙ simp (append_assoc)

  from_header :
      bytes
      ≡ (pre ++ newc_magic) ++ (header_text ++ (e.name ++ (0 ∷ [] ++ (gap ++ (e.body ++ tail)))))
  from_header = from_magic ∙ sym (append_assoc pre newc_magic _)

  from_name : bytes ≡ before_name ++ (e.name ++ (0 ∷ [] ++ (gap ++ (e.body ++ tail))))
  from_name = from_magic ∙ simp (append_assoc)

  from_body : bytes ≡ before_body ++ (e.body ++ tail)
  from_body = from_magic ∙ simp (append_assoc)

  length-before_name : length before_name ≡ length pre + 110
  length-before_name = omega (
    arith,
    length-append pre (newc_magic ++ header_text),
    length-append newc_magic header_text,
    length-newc_magic,
    length-hex_fields (fields e) fits,
  )

  length-before_body :
      length before_body ≡ length pre + 111 + length e.name + (4 - (111 + length e.name) % 4) % 4
  length-before_body = omega (
    arith,
    length-before_name,
    length-append before_name (e.name ++ (0 ∷ [] ++ gap)),
    length-append e.name (0 ∷ [] ++ gap),
    length-padding (111 + length e.name),
  )

  length-bytes : length bytes ≡ length before_body + (length e.body + length tail)
  length-bytes =
      ap (length {A = ℕ}) from_body
      ∙ omega (arith, length-append before_body (e.body ++ tail), length-append e.body tail)

  read_round-body :
      read_round bytes (pos (length pre))
      ≡ read_body bytes
          (pos (length pre))
          (pos e.mode)
          (pos (length e.body))
          (pos (length e.name + 1))
  unfolding read_round forward read_sizes sizes
  read_round-body =
      let long : ltb_ℤ (pos (length bytes)) (pos (length pre + 110)) ≡ false =
        ground (arith, length-bytes, length-before_body) in
      let six : length pre + 6 ≡ length (pre ++ newc_magic) =
        omega (arith, length-append pre newc_magic, length-newc_magic) in
      let begins : slice bytes (pos (length pre)) (pos (length pre + 6)) ≡ newc_magic =
        slice_lem pre newc_magic _ bytes (length pre) (length pre + 6) from_magic refl
          (omega (arith, length-newc_magic)) in
      let read : read_fields 13 bytes (pos (length pre + 6)) ≡ some (map pos (fields e)) =
        ap (λ (n : ℕ). read_fields 13 bytes (pos n)) six
        ∙ read_fields-hex (fields e) (pre ++ newc_magic) _ bytes fits from_header in
      rw (long, begins, newc_magic-is_magic, read) refl

  name_end-pos :
      name_end (pos (length pre)) (pos (length e.name + 1)) ≡ pos (length pre + 110 + length e.name)
  unfolding forward back plus
  name_end-pos = ground arith

  read_name :
      slice bytes (pos (length pre + 110)) (name_end (pos (length pre)) (pos (length e.name + 1)))
      ≡ e.name
  read_name = rw name_end-pos (
      slice_lem before_name e.name _ bytes (length pre + 110) (length pre + 110 + length e.name)
        from_name (sym length-before_name) (omega (arith, length-before_name)))

  body_at-pos : body_at (pos (length pre)) (pos (length e.name + 1)) ≡ pos (length before_body)
  unfolding forward plus align
  body_at-pos = ap pos (omega (arith, length-before_body, aligned))

  length-behind :
      length (pre ++ write_entry e)
      ≡ length before_body + (length e.body + (4 - length e.body % 4) % 4)
  unfolding write_entry
  length-behind =
      let flat : pre ++ write_entry e ≡ before_body ++ (e.body ++ padding (length e.body)) =
        simp (append_assoc) in
      ap (length {A = ℕ}) flat
      ∙ omega (
        arith,
        length-append before_body (e.body ++ padding (length e.body)),
        length-append e.body (padding (length e.body)),
        length-padding (length e.body),
      )

  -- The next member's offset is a multiple of four again.
  pub behind-aligned : length (pre ++ write_entry e) % 4 ≡ 0
  behind-aligned = omega (arith, length-behind, length-before_body, aligned)

  behind-pos :
      align (pos (length before_body + length e.body)) ≡ pos (length (pre ++ write_entry e))
  unfolding align
  behind-pos = ap pos (omega (arith, length-behind, length-before_body, aligned))

  -- The round of the loop that reads the member, and the one that reads the trailer.
  pub read_round-entry :
      text_eq e.name trailer ≡ false
      → read_round bytes (pos (length pre))
        ≡ goes_on (member_of e) (pos (length (pre ++ write_entry e)))
  unfolding read_body plus forward
  read_round-entry other =
      let inside : ltb_ℤ (pos (length bytes)) (pos (length before_body + length e.body)) ≡ false =
        ground (arith, length-bytes) in
      let body : slice bytes (pos (length before_body)) (pos (length before_body + length e.body))
          ≡ e.body =
        slice_lem before_body e.body tail bytes _ _ from_body refl refl in
      read_round-body ∙ rw (read_name, other, body_at-pos, inside, body, behind-pos) refl

  pub read_round-trailer :
      text_eq e.name trailer ≡ true → read_round bytes (pos (length pre)) ≡ ends (members [])
  unfolding read_body forward
  read_round-trailer last = read_round-body ∙ rw (read_name, last) refl
