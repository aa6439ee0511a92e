-- ===== src/Cpio/Ends.antt =====
-- `read_cpio` of sw/linux/check_initramfs.py comes to an end on a file without a minus sign, and the one
-- that it does not end on.
use koti.Base.{
  ℕ, zero, suc, ◌+◌, ◌≤◌, ◌<◌, ◌≡◌, ◌≢◌, refl, arith, Option, none, some, false, ◌&&◌, ◌==◌, ◌>>=◌,
  List, [], ◌∷◌, length, take, All, All-drop, if_each, Bool-cases, Option-cases, get_elem?,
  All-get_elem?, inl, inr,
}
use koti.Base.Int.{ℤ, pos, ltb_ℤ}
use koti.Base.Text.{Text, text_eq}
use koti.Base.Strings.{int_hex, int_prefixed, rstrip, all_of}
use koti.Cpio.Archive.{
  Member, Archive, members, ran_off, bad_magic, bad_header, cut_short, endless, Round, ends,
  goes_on, forward, plus, align, slice, drop_blank, is_blank, int_field, read_fields, sizes,
  is_magic, trailer, read_body, read_sizes, read_round, with_member, read_loop, read_cpio, name_end,
  body_at,
}

-- No byte of the text is a minus sign.
abbrev pub IsPlain : List ℕ → Type 0
IsPlain = All (λ c. (c == b'-') ≡ false)

abbrev IsNatural : ℤ → Type 0
IsNatural z = (n : ℕ) × (z ≡ pos n)

All-take {ℓ κ} : {A : Type ℓ} (P : A → Type κ) (n : ℕ) (xs : List A) → All P xs → All P (take n xs)
All-take P zero xs h = tt
All-take P (suc n) [] h = tt
All-take P (suc n) (x ∷ xs) h = (h.0, All-take P n xs h.1)

slice-IsPlain : (bytes : List ℕ) (a b : ℤ) → IsPlain bytes → IsPlain (slice bytes a b)
unfolding slice
slice-IsPlain bytes a b h = All-take _ _ _ (All-drop _ _ bytes h)

drop_blank-IsPlain : (s : Text) → IsPlain s → IsPlain (drop_blank s)
unfolding drop_blank
drop_blank-IsPlain [] h = tt
drop_blank-IsPlain (c ∷ s) h =
    if_each IsPlain (is_blank c) _ _ (λ e. drop_blank-IsPlain s h.1) (λ e. h)

rstrip-IsPlain : (s : Text) → IsPlain s → IsPlain (rstrip is_blank s)
unfolding rstrip
rstrip-IsPlain [] h = tt
rstrip-IsPlain (c ∷ s) h = elim (Bool-cases (is_blank c && all_of is_blank s)) [
  | inl e ↦ rw (e, rstrip) tt
  | inr e ↦ rw (e, rstrip) (h.0, rstrip-IsPlain s h.1)
]

IsNatural-after : (o : Option ℕ) (v : ℤ) → (o >>= λ (n : ℕ). some (pos n)) ≡ some v → IsNatural v
IsNatural-after none v e = absurd (cc)
IsNatural-after (some n) v e = (n, cc)

int_hex-IsNatural : (s : Text) (v : ℤ) → IsPlain s → int_hex s ≡ some v → IsNatural v
unfolding int_hex
int_hex-IsNatural [] v h e = absurd (cc)
int_hex-IsNatural (c ∷ s) v h e = elim (Bool-cases (c == b'+')) [
  | inl p ↦ IsNatural-after (int_prefixed s) v (rw (h.0, p, int_hex) at e)
  | inr p ↦ IsNatural-after (int_prefixed (c ∷ s)) v (rw (h.0, p, int_hex) at e)
]

int_field-IsNatural : (s : Text) (v : ℤ) → IsPlain s → int_field s ≡ some v → IsNatural v
unfolding int_field
int_field-IsNatural s v h e =
    int_hex-IsNatural _ v (rstrip-IsPlain (drop_blank s) (drop_blank-IsPlain s h)) e

-- What a header is read as, where it can be read.
abbrev NaturalFields : Option (List ℤ) → Type 0
NaturalFields none = Unit
NaturalFields (some vs) = All IsNatural vs

field_then :
    (o : Option ℤ) (os : Option (List ℤ))
    → ((v : ℤ) → o ≡ some v → IsNatural v)
    → NaturalFields os
    → NaturalFields (o >>= λ (v : ℤ). os >>= λ (vs : List ℤ). some (v ∷ vs))
field_then none os h hs = tt
field_then (some v) none h hs = tt
field_then (some v) (some vs) h hs = (h v refl, hs)

read_fields-IsNatural :
    (n : ℕ) (bytes : List ℕ) (at : ℤ) → IsPlain bytes → NaturalFields (read_fields n bytes at)
unfolding read_fields
read_fields-IsNatural zero bytes at h = tt
read_fields-IsNatural (suc n) bytes at h =
    field_then (int_field (slice bytes at (forward at 8))) (read_fields n bytes (forward at 8))
      (λ v. int_field-IsNatural _ v (slice-IsPlain bytes at (forward at 8) h))
      (read_fields-IsNatural n bytes (forward at 8) h)

abbrev triple : ℤ → ℤ → ℤ → Option (ℤ × ℤ × ℤ)
triple x y z = some (x, y, z)

sizes_then :
    (a b c : Option ℤ) (mode fsize nsize : ℤ)
    → ((v : ℤ) → b ≡ some v → IsNatural v)
    → ((v : ℤ) → c ≡ some v → IsNatural v)
    → (a >>= λ (x : ℤ). b >>= λ (y : ℤ). c >>= λ (z : ℤ). triple x y z) ≡ some (mode, fsize, nsize)
    → IsNatural fsize × IsNatural nsize
sizes_then none b c mode fsize nsize hb hc e = absurd (cc)
sizes_then (some x) none c mode fsize nsize hb hc e = absurd (cc)
sizes_then (some x) (some y) none mode fsize nsize hb hc e = absurd (cc)
sizes_then (some x) (some y) (some z) mode fsize nsize hb hc e = (hb fsize (cc), hc nsize (cc))

sizes-IsNatural :
    (vs : List ℤ) (mode fsize nsize : ℤ)
    → All IsNatural vs
    → sizes vs ≡ some (mode, fsize, nsize)
    → IsNatural fsize × IsNatural nsize
unfolding sizes
sizes-IsNatural vs mode fsize nsize h e =
    sizes_then (get_elem? vs 1) (get_elem? vs 6) (get_elem? vs 11) mode fsize nsize
      (λ v. All-get_elem? IsNatural vs 6 h) (λ v. All-get_elem? IsNatural vs 11 h) e

-- A round ends the loop, or it goes on behind a header that is all there.
abbrev Advances : ℕ → ℕ → Round → Type 0
Advances len off (ends a) = a ≢ endless
Advances len off (goes_on m next) =
    (behind : ℕ) × (next ≡ pos behind) × (off + 110 ≤ behind) × (off + 110 ≤ len)

module _ (bytes : List ℕ) (off : ℕ) (inside : off + 110 ≤ length bytes) where
  read_body-Advances :
      (mode : ℤ) (fsize nsize : ℕ)
      → Advances (length bytes) off (read_body bytes (pos off) mode (pos fsize) (pos nsize))
  unfolding read_body forward plus align
  read_body-Advances mode fsize nsize =
      elim (Bool-cases
        (text_eq (slice bytes (pos (off + 110)) (name_end (pos off) (pos nsize))) trailer)) [
          | inl e ↦ rw e (λ a. absurd (cc))
          | inr e ↦ rw e (
              if_each (Advances (length bytes) off)
                (ltb_ℤ (pos (length bytes)) (plus (body_at (pos off) (pos nsize)) (pos fsize)))
                (ends cut_short) _ (λ e. λ a. absurd (cc)) (λ e. (_, refl, omega arith, inside)))
        ]

  read_sizes-Advances :
      (o : Option (List ℤ))
      → NaturalFields o
      → Advances (length bytes) off (read_sizes o bytes (pos off))
  unfolding read_sizes
  read_sizes-Advances none h = λ a. absurd (cc)
  read_sizes-Advances (some vs) h = elim (Option-cases (sizes vs)) [
    | inl e ↦
        let bad : read_sizes (some vs) bytes (pos off) ≡ ends bad_header =
          rw (e, read_sizes) refl in
        rw bad (λ a. absurd (cc))
    | inr ((mode, fsize, nsize), e) ↦
        let ((f, ef), (n, en)) = sizes-IsNatural vs mode fsize nsize h e in
        let good : read_sizes (some vs) bytes (pos off)
            ≡ read_body bytes (pos off) mode (pos f) (pos n) =
          rw (e, ef, en, read_sizes) refl in
        rw good (read_body-Advances mode f n)
  ]

read_round-Advances :
    (bytes : List ℕ) (off : ℕ)
    → IsPlain bytes
    → Advances (length bytes) off (read_round bytes (pos off))
unfolding read_round forward
read_round-Advances bytes off h = elim (Bool-cases (ltb_ℤ (pos (length bytes)) (pos (off + 110)))) [
  | inl e ↦ rw e (λ a. absurd (cc))
  | inr e ↦ elim (Bool-cases (is_magic (slice bytes (pos off) (pos (off + 6))))) [
    | inl m ↦
        let inside : off + 110 ≤ length bytes = ground arith in
        rw (e, m)
          (read_sizes-Advances bytes off inside _
            (read_fields-IsNatural 13 bytes (pos (off + 6)) h))
    | inr m ↦ rw (e, m) (λ a. absurd (cc))
  ]
]

with_member-ends : (m : Member) (a : Archive) → a ≢ endless → with_member m a ≢ endless
unfolding with_member
with_member-ends m (members ms) h = λ e. absurd (cc)
with_member-ends m ran_off h = λ e. absurd (cc)
with_member-ends m bad_magic h = λ e. absurd (cc)
with_member-ends m bad_header h = λ e. absurd (cc)
with_member-ends m cut_short h = λ e. absurd (cc)
with_member-ends m endless h = absurd (h refl)

-- What the loop makes of a round that goes on, or that ends it.
abbrev after : List ℕ → ℕ → Round → Archive
after bytes fuel (ends a) = a
after bytes fuel (goes_on m next) = with_member m (read_loop fuel bytes next)

after-ends :
    (bytes : List ℕ) (off fuel : ℕ)
    → ((behind : ℕ)
        → off + 110 ≤ behind
        → off + 110 ≤ length bytes
        → read_loop fuel bytes (pos behind) ≢ endless)
    → (r : Round) → Advances (length bytes) off r
    → after bytes fuel r ≢ endless
after-ends bytes off fuel later (ends a) ne = ne
after-ends bytes off fuel later (goes_on m next) (behind, at, far, inside) =
    rw at (with_member-ends m _ (later behind far inside))

read_loop-ends :
    (fuel : ℕ) (bytes : List ℕ) (off : ℕ)
    → IsPlain bytes
    → length bytes < off + fuel
    → 1 ≤ fuel
    → read_loop fuel bytes (pos off) ≢ endless
unfolding read_loop
read_loop-ends zero bytes off h enough some_left = absurd (omega arith)
read_loop-ends (suc fuel) bytes off h enough some_left =
    after-ends bytes off fuel
      (λ behind far inside. read_loop-ends fuel bytes behind h (omega arith) (omega arith))
      (read_round bytes (pos off)) (read_round-Advances bytes off h)

-- On a file without a minus sign the reading comes to an end: with its members, or with the message
-- for one of its faults.
pub read_cpio-ends : (bytes : List ℕ) → IsPlain bytes → read_cpio bytes ≢ endless
unfolding read_cpio
read_cpio-ends bytes h = read_loop-ends (suc (length bytes)) bytes 0 h (omega arith) (omega arith)

-- A round that comes back to its own offset keeps the loop from its end, with any fuel.
pub read_loop-endless :
    (bytes : List ℕ) (off : ℤ) (m : Member)
    → read_round bytes off ≡ goes_on m off
    → (fuel : ℕ) → read_loop fuel bytes off ≡ endless
unfolding read_loop with_member
read_loop-endless bytes off m e zero = refl
read_loop-endless bytes off m e (suc fuel) =
    rw (e, read_loop, read_loop-endless bytes off m e fuel) refl
