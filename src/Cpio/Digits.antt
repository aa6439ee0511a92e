-- ===== src/Cpio/Digits.antt =====
-- A field of a cpio header, eight hexadecimal digits, is read back as its number by the `int` of
-- sw/linux/check_initramfs.py.
use koti.Base.{
  ℕ, ◌+◌, ◌*◌, ◌≡◌, ◌≢◌, refl, ap, inl, inr, arith, some, true, false, ◌==◌, ◌||◌, [], ◌∷◌,
  Bool-cases,
}
use koti.Base.Int.{pos}
use koti.Base.Text.{Text}
use koti.Base.Number.{is_hex, is_dec, digit_value, value, Passes}
use koti.Base.Strings.{int_digits, int_prefixed, int_hex, rstrip}
use koti.Cpio.Archive.{is_blank, drop_blank, int_field}

is_hex-plain :
    (c : ℕ)
    → is_hex c ≡ true
    → (is_blank c ≡ false)
      × ((c == b'-') ≡ false)
      × ((c == b'+') ≡ false)
      × ((c == b'_') ≡ false)
      × (((c == b'x') || (c == b'X')) ≡ false)
unfolding is_hex is_dec is_blank
is_hex-plain c h = (ground arith, ground arith, ground arith, ground arith, ground arith)

drop_blank-hex : (s : Text) → Passes is_hex s → drop_blank s ≡ s
unfolding drop_blank
drop_blank-hex [] h = refl
drop_blank-hex (c ∷ s) h = rw ((is_hex-plain c h.0).0, drop_blank) refl

rstrip-hex : (s : Text) → Passes is_hex s → rstrip is_blank s ≡ s
unfolding rstrip
rstrip-hex [] h = refl
rstrip-hex (c ∷ s) h =
    rw ((is_hex-plain c h.0).0, rstrip) (ap (λ (t : Text). c ∷ t) (rstrip-hex s h.1))

int_digits-hex : (n : ℕ) (s : Text) → Passes is_hex s → int_digits n true s ≡ some (value 16 n s)
unfolding int_digits value
int_digits-hex n [] h = refl
int_digits-hex n (c ∷ s) h =
    rw ((is_hex-plain c h.0).3, h.0, int_digits) (int_digits-hex (n * 16 + digit_value c) s h.1)

int_digits-first :
    (c : ℕ) (s : Text)
    → Passes is_hex (c ∷ s)
    → int_digits 0 false (c ∷ s) ≡ some (value 16 0 (c ∷ s))
unfolding int_digits value
int_digits-first c s h =
    rw ((is_hex-plain c h.0).3, h.0, int_digits) (int_digits-hex (0 * 16 + digit_value c) s h.1)

int_prefixed-hex :
    (c : ℕ) (s : Text) → Passes is_hex (c ∷ s) → int_prefixed (c ∷ s) ≡ some (value 16 0 (c ∷ s))
unfolding int_prefixed
int_prefixed-hex c [] h = int_digits-first c [] h
int_prefixed-hex c (x ∷ []) h = int_digits-first c (x ∷ []) h
int_prefixed-hex c (x ∷ (u ∷ s)) h = elim (Bool-cases (c == b'0')) [
  | inl z ↦ rw (z, (is_hex-plain x h.1.0).4, int_prefixed) (int_digits-first c (x ∷ (u ∷ s)) h)
  | inr z ↦ rw (z, int_prefixed) (int_digits-first c (x ∷ (u ∷ s)) h)
]

int_hex-hex : (s : Text) → s ≢ [] → Passes is_hex s → int_hex s ≡ some (pos (value 16 0 s))
unfolding int_hex
int_hex-hex [] n h = absurd (n refl)
int_hex-hex (c ∷ s) n h =
    rw ((is_hex-plain c h.0).1, (is_hex-plain c h.0).2, int_prefixed-hex c s h, int_hex) refl

pub int_field-hex : (s : Text) → s ≢ [] → Passes is_hex s → int_field s ≡ some (pos (value 16 0 s))
unfolding int_field
int_field-hex s n h = rw (drop_blank-hex s h, rstrip-hex s h) (int_hex-hex s n h)
