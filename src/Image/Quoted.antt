-- ===== src/Image/Quoted.antt =====
-- The scan of an argument in sw/linux/check_initramfs.py agrees with how the shell reads a quoted word.
use koti.Base.{
  ℕ, ◌≡◌, refl, ap, ◌∙◌, Bool, false, ◌==◌, ◌||◌, List, [], ◌∷◌, ◌++◌, All, Bool-cases, inl, inr,
}
use koti.Base.Text.{Text}
use koti.Image.Sends.{breaks}

-- A character between double quotes: itself, or behind a backslash.
pub data Item : Type 0 where
  plain : ℕ → Item
  escaped : ℕ → Item

unfoldable pub written : List Item → Text
written [] = []
written (plain c ∷ items) = c ∷ written items
written (escaped c ∷ items) = b'\\' ∷ c ∷ written items

-- Neither quote nor backslash stands there by itself.
abbrev pub IsItem : Item → Type 0
IsItem (plain c) = ((c == b'"') ≡ false) × ((c == b'\\') ≡ false)
IsItem (escaped c) = Unit

-- A newline that is not escaped, which the shell would take off.
unfoldable pub has_newline : List Item → Bool
has_newline [] = false
has_newline (plain c ∷ items) = c == b'\n' || has_newline items
has_newline (escaped c ∷ items) = has_newline items

breaks-cons :
    (c : ℕ) (s rest : Text)
    → ((c == b'"') ≡ false)
    → ((c == b'\\') ≡ false)
    → breaks b'"' (c ∷ (s ++ b'"' ∷ rest)) ≡ (c == b'\n' || breaks b'"' (s ++ b'"' ∷ rest))
unfolding breaks
breaks-cons c [] rest q b = elim (Bool-cases (c == b'\n')) [
  | inl n ↦ rw (b, q, n, breaks) refl
  | inr n ↦ rw (b, q, n, breaks) refl
]
breaks-cons c (d ∷ s) rest q b = elim (Bool-cases (c == b'\n')) [
  | inl n ↦ rw (b, q, n, breaks) refl
  | inr n ↦ rw (b, q, n, breaks) refl
]

breaks-end : (rest : Text) → breaks b'"' (b'"' ∷ rest) ≡ false
unfolding breaks
breaks-end [] = refl
breaks-end (c ∷ rest) = refl

-- Of a word in double quotes the scan says whether it has a newline that no backslash stands in front
-- of, whatever follows the word.
pub breaks-written :
    (items : List Item) (rest : Text)
    → All IsItem items
    → breaks b'"' (written items ++ b'"' ∷ rest) ≡ has_newline items
unfolding written has_newline breaks
breaks-written [] rest h = breaks-end rest
breaks-written (plain c ∷ items) rest h =
    let more = breaks-written items rest h.1 in
    breaks-cons c (written items) rest h.0.0 h.0.1 ∙ ap (λ (b : Bool). c == b'\n' || b) more
breaks-written (escaped c ∷ items) rest h = breaks-written items rest h.1
