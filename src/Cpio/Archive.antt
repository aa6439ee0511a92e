-- ===== src/Cpio/Archive.antt =====
-- `read_cpio` of sw/linux/check_initramfs.py. A name is its bytes: the names that the program compares
-- are ASCII, and no other bytes decode to them. Offsets are Python's integers: a size that is read
-- from a header may be negative, and a slice then counts from the end of the file.
use koti.Base.{
  ℕ, zero, suc, ◌+◌, ◌-◌, ◌%◌, Option, none, some, Bool, ◌&&◌, ◌||◌, ◌==◌, ltb, leb, ◌>>=◌, List,
  [], ◌∷◌, length, get_elem?, take, drop, if◌then◌else◌,
}
use koti.Base.Int.{ℤ, pos, negsuc, ltb_ℤ}
use koti.Base.Text.{lit, text_eq}
use koti.Base.Strings.{int_hex, rstrip}

pub record Member : Type 0 where
  pub name : List ℕ
  pub mode : ℤ
  pub body : List ℕ

-- How `read_cpio` ends: the members, or an exit with a message. `endless` is that the fuel ran out.
pub data Archive : Type 0 where
  members : List Member → Archive
  ran_off : Archive
  bad_magic : Archive
  bad_header : Archive
  cut_short : Archive
  endless : Archive

-- `z + n` and `z - n`, and `z + w`.
unfoldable pub forward : ℤ → ℕ → ℤ
forward (pos a) n = pos (a + n)
forward (negsuc a) n = if ltb a n then pos (n - a - 1) else negsuc (a - n)

unfoldable pub back : ℤ → ℕ → ℤ
back (pos a) n = if leb n a then pos (a - n) else negsuc (n - a - 1)
back (negsuc a) n = negsuc (a + n)

unfoldable pub plus : ℤ → ℤ → ℤ
unfolding forward back
plus z (pos n) = forward z n
plus z (negsuc n) = back z (n + 1)

-- `z + (-z) % 4`.
unfoldable pub align : ℤ → ℤ
unfolding forward
align (pos n) = pos (n + (4 - n % 4) % 4)
align (negsuc n) = forward (negsuc n) ((n + 1) % 4)

-- An index of a slice, of a list of `len` elements.
unfoldable pub clip : ℕ → ℤ → ℕ
clip len (pos n) = if ltb len n then len else n
clip len (negsuc n) = len - (n + 1)

-- `data[a:b]`.
unfoldable pub slice : List ℕ → ℤ → ℤ → List ℕ
unfolding clip
slice xs a b = take (clip (length xs) b - clip (length xs) a) (drop (clip (length xs) a) xs)

-- White space as `int` of bytes takes it off.
unfoldable pub is_blank : ℕ → Bool
is_blank c = c == 32 || (leb 9 c && leb c 13)

unfoldable pub drop_blank : List ℕ → List ℕ
unfolding is_blank
drop_blank [] = []
drop_blank (c ∷ s) = if is_blank c then drop_blank s else c ∷ s

-- `int(field, 16)`.
unfoldable pub int_field : List ℕ → Option ℤ
unfolding drop_blank rstrip is_blank int_hex
int_field s = int_hex (rstrip is_blank (drop_blank s))

-- The list `fields`, from the field at `at` on; `none` is a ValueError.
unfoldable pub read_fields : ℕ → List ℕ → ℤ → Option (List ℤ)
unfolding int_field slice forward
read_fields zero bytes at = some []
read_fields (suc n) bytes at = do
  v ← int_field (slice bytes at (forward at 8))
  vs ← read_fields n bytes (forward at 8)
  some (v ∷ vs)

-- The mode, the size and the size of the name: `fields[1], fields[6], fields[11]`.
unfoldable pub sizes : List ℤ → Option (ℤ × ℤ × ℤ)
sizes fields = do
  mode ← get_elem? fields 1
  fsize ← get_elem? fields 6
  nsize ← get_elem? fields 11
  some (mode, fsize, nsize)

unfoldable pub is_magic : List ℕ → Bool
unfolding text_eq lit
is_magic s = text_eq s (lit "070701") || text_eq s (lit "070702")

abbrev pub trailer : List ℕ
trailer = lit "TRAILER!!!"

-- Where the name of the member at `off` ends and where its body begins.
abbrev pub name_end : ℤ → ℤ → ℤ
name_end off nsize = back (plus (forward off 110) nsize) 1

abbrev pub body_at : ℤ → ℤ → ℤ
body_at off nsize = align (plus (forward off 110) nsize)

-- One round of the loop: the end of the loop, or a member and the offset behind it.
pub data Round : Type 0 where
  ends : Archive → Round
  goes_on : Member → ℤ → Round

unfoldable pub read_body : List ℕ → ℤ → ℤ → ℤ → ℤ → Round
read_body bytes off mode fsize nsize =
    let name = slice bytes (forward off 110) (name_end off nsize) in
    let body = body_at off nsize in
    if text_eq name trailer
    then ends (members [])
    else if ltb_ℤ (pos (length bytes)) (plus body fsize)
    then ends cut_short
    else goes_on (record { name = name; mode = mode; body = slice bytes body (plus body fsize) })
        (align (plus body fsize))

unfoldable pub read_sizes : Option (List ℤ) → List ℕ → ℤ → Round
unfolding sizes read_body
read_sizes fields bytes off = elim (fields >>= sizes) [
  | none ↦ ends bad_header
  | some (mode, fsize, nsize) ↦ read_body bytes off mode fsize nsize
]

unfoldable pub read_round : List ℕ → ℤ → Round
unfolding forward slice read_fields read_sizes
read_round bytes off =
    if ltb_ℤ (pos (length bytes)) (forward off 110)
    then ends ran_off
    else if is_magic (slice bytes off (forward off 6))
    then read_sizes (read_fields 13 bytes (forward off 6)) bytes off
    else ends bad_magic

-- The list with a member in front, where the reading comes to an end.
unfoldable pub with_member : Member → Archive → Archive
with_member m (members ms) = members (m ∷ ms)
with_member m ran_off = ran_off
with_member m bad_magic = bad_magic
with_member m bad_header = bad_header
with_member m cut_short = cut_short
with_member m endless = endless

unfoldable pub read_loop : ℕ → List ℕ → ℤ → Archive
unfolding read_round with_member
read_loop zero bytes off = endless
read_loop (suc fuel) bytes off = elim (read_round bytes off) [
  | ends a ↦ a
  | goes_on m next ↦ with_member m (read_loop fuel bytes next)
]

-- Each header takes 110 bytes, so this is enough where the offset grows.
unfoldable pub read_cpio : List ℕ → Archive
unfolding read_loop
read_cpio bytes = read_loop (suc (length bytes)) bytes (pos 0)
