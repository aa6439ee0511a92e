-- ===== src/Cpio/Slices.antt =====
-- Slices of a cpio archive that is put together from pieces.
use koti.Base.{
  ℕ, ◌+◌, ◌-◌, ◌*◌, ◌^◌, ◌≤◌, ◌<◌, ◌≡◌, ◌≢◌, refl, sym, ap, ◌∙◌, arith, some, List, [], ◌∷◌, ◌++◌,
  length, map, take, All, length-append, take-append, drop-append, append_assoc,
}
use koti.Base.Int.{pos}
use koti.Base.Text.{Text, hex8}
use koti.Base.Number.{value-zero_pad, zero_pad-Passes, length-hex8}
use koti.Cpio.Archive.{slice, clip, read_fields, int_field}
use koti.Cpio.Digits.{int_field-hex}

clip-inside : (len n : ℕ) → n ≤ len → clip len (pos n) ≡ n
unfolding clip
clip-inside len n h = ground arith

-- A piece is the slice from where it begins to where it ends.
pub slice_lem :
    (pre mid rest bytes : List ℕ) (a b : ℕ)
    → bytes ≡ pre ++ (mid ++ rest)
    → a ≡ length pre
    → b ≡ length pre + length mid
    → slice bytes (pos a) (pos b) ≡ mid
unfolding slice
slice_lem pre mid rest bytes a b e ea eb =
    let size : length pre + length mid - length pre ≡ length mid = omega arith in
    let total : length (pre ++ (mid ++ rest)) ≡ length pre + (length mid + length rest) =
      omega (arith, length-append pre (mid ++ rest), length-append mid rest) in
    let ca : clip (length (pre ++ (mid ++ rest))) (pos (length pre)) ≡ length pre =
      clip-inside _ _ (omega (arith, total)) in
    let cb : clip (length (pre ++ (mid ++ rest))) (pos (length pre + length mid))
        ≡ length pre + length mid =
      clip-inside _ _ (omega (arith, total)) in
    rw (e, ea, eb, ca, cb, size)
      (ap (take (length mid)) (drop-append pre (mid ++ rest)) ∙ take-append mid rest)

-- The fields of a header as text.
unfoldable pub hex_fields : List ℕ → Text
unfolding hex8
hex_fields [] = []
hex_fields (v ∷ vs) = hex8 v ++ hex_fields vs

abbrev pub Fits : List ℕ → Type 0
Fits = All (λ v. v < 2 ^ 32)

pub length-hex_fields : (vs : List ℕ) → Fits vs → length (hex_fields vs) ≡ length vs * 8
unfolding hex_fields
length-hex_fields [] h = refl
length-hex_fields (v ∷ vs) h =
    omega
      (arith, length-append (hex8 v) (hex_fields vs), length-hex8 v h.0, length-hex_fields vs h.1)

int_field-hex8 : (v : ℕ) → v < 2 ^ 32 → int_field (hex8 v) ≡ some (pos v)
unfolding hex8
int_field-hex8 v h =
    let full : hex8 v ≢ [] = λ e. omega (arith, ap (length {A = ℕ}) e, length-hex8 v h) in
    int_field-hex (hex8 v) full (zero_pad-Passes 8 v)
    ∙ ap (λ (n : ℕ). some (pos n)) (value-zero_pad 8 v)

pub read_fields-hex :
    (vs : List ℕ) (pre rest bytes : List ℕ)
    → Fits vs
    → bytes ≡ pre ++ (hex_fields vs ++ rest)
    → read_fields (length vs) bytes (pos (length pre)) ≡ some (map pos vs)
unfolding read_fields hex_fields
read_fields-hex [] pre rest bytes h e = refl
read_fields-hex (v ∷ vs) pre rest bytes h e =
    let inner : bytes ≡ pre ++ (hex8 v ++ (hex_fields vs ++ rest)) =
      e ∙ ap (λ (l : List ℕ). pre ++ l) (append_assoc (hex8 v) (hex_fields vs) rest) in
    let width = length-hex8 v h.0 in
    let field : slice bytes (pos (length pre)) (pos (length pre + 8)) ≡ hex8 v =
      slice_lem pre (hex8 v) (hex_fields vs ++ rest) bytes _ _ inner refl (omega (arith, width)) in
    let next : length pre + 8 ≡ length (pre ++ hex8 v) =
      omega (arith, length-append pre (hex8 v), width) in
    let behind =
      read_fields-hex vs (pre ++ hex8 v) rest bytes h.1
        (inner ∙ sym (append_assoc pre (hex8 v) (hex_fields vs ++ rest))) in
    rw (field, int_field-hex8 v h.0, next, behind) refl
