-- ===== src/Base/Number.antt =====
-- Numbers read from text: the digit classes of the regular expressions and `int` in a base, with the
-- round trip against the number formats of `Base.Text`.
use Prim.Native.Nat.{ℕ, zero, suc, ◌+◌, ◌-◌, ◌*◌, ◌/◌, ◌%◌, ◌^◌, ◌≤◌, ◌<◌}
use mathlib.Core.Path.{◌≡◌, refl, ◌∙◌, ap}
use mathlib.Core.Logic.{inl, inr, ◌≢◌}
use mathlib.Core.Option.{Option, none, some}
use mathlib.Core.Bool.{Bool, true, false, ◌&&◌, ◌||◌}
use mathlib.Core.List.{[], ◌∷◌, ◌++◌}
use native.Mathlib.Omega.{arith}
use native.Mathlib.Nat.{pow-suc, div-lt_self, div-add-mod', mod-lt}
use koti.Base.Tests.{ltb, leb, ◌==◌, if◌then◌else◌, Bool-cases}
use koti.Base.Lists.{
  All, All-append, All-replicate, length, replicate, length-append, length-replicate,
}
use koti.Base.Text.{Text, digit, digits_loop, hex, hex8, dec, zero_pad}

-- `\d` and `[0-9a-fA-F]`, on ASCII text.
unfoldable pub is_dec : ℕ → Bool
is_dec c = leb b'0' c && leb c b'9'

unfoldable pub is_hex : ℕ → Bool
unfolding is_dec
is_hex c = is_dec c || (leb b'a' c && leb c b'f') || (leb b'A' c && leb c b'F')

unfoldable pub digit_value : ℕ → ℕ
digit_value c = if leb c b'9' then c - b'0' else if leb c b'F' then c - 55 else c - 87

-- The number that digits spell in base `b`, behind `n`.
unfoldable pub value : ℕ → ℕ → Text → ℕ
value b n [] = n
value b n (c ∷ s) = value b (n * b + digit_value c) s

-- The longest prefix whose characters pass the test, and the rest.
unfoldable pub span : (ℕ → Bool) → Text → Text × Text
span p [] = ([], [])
span p (c ∷ s) = let (xs, rest) = span p s in if p c then (c ∷ xs, rest) else ([], c ∷ s)

digit_value-digit : (n : ℕ) → n < 16 → digit_value (digit n) ≡ n
unfolding digit_value digit
digit_value-digit n h = ground arith

value-digits_loop :
    (b fuel n : ℕ) (acc : Text)
    → 2 ≤ b
    → b ≤ 16
    → n < fuel
    → value b 0 (digits_loop b fuel n acc) ≡ value b n acc
unfolding value digits_loop
value-digits_loop b zero n acc lo hi h = absurd (omega arith)
value-digits_loop b (suc fuel) n acc lo hi h = elim (Bool-cases (ltb n b)) [
  | inl small ↦
      let below : n < b = ground arith in
      let last : 0 * b + digit_value (digit n) ≡ n =
        omega (arith, digit_value-digit n (omega arith)) in
      rw (small, digits_loop) (rw last)
  | inr large ↦
      let above : b ≤ n = ground arith in
      let falls : n / b < n = div-lt_self (omega arith) (omega arith) in
      let shorter : n / b < fuel = omega arith in
      let in_base : n % b < b = mod-lt n (omega arith) in
      let last : n / b * b + digit_value (digit (n % b)) ≡ n =
        omega (arith, digit_value-digit (n % b) (omega arith), div-add-mod' n b) in
      rw (large, digits_loop)
        (value-digits_loop b fuel (n / b) (digit (n % b) ∷ acc) lo hi shorter
          ∙ ap (λ (m : ℕ). value b m acc) last)
]

-- `int(f"{n:x}", 16)` and `int(f"{n}")` give the number back.
pub value-hex : (n : ℕ) → value 16 0 (hex n) ≡ n
unfolding hex value
value-hex n = value-digits_loop 16 (suc n) n [] (omega arith) (omega arith) (omega arith)

pub value-dec : (n : ℕ) → value 10 0 (dec n) ≡ n
unfolding dec value
value-dec n = value-digits_loop 10 (suc n) n [] (omega arith) (omega arith) (omega arith)

-- Every character of `s` passes the test.
abbrev pub Passes : (ℕ → Bool) → Text → Type 0
Passes p = All (λ c. p c ≡ true)

digits_loop-Passes :
    (p : ℕ → Bool) (b fuel n : ℕ) (acc : Text)
    → ((d : ℕ) → d < b → p (digit d) ≡ true)
    → 1 < b
    → n < fuel
    → Passes p acc
    → Passes p (digits_loop b fuel n acc)
unfolding digits_loop
digits_loop-Passes p b zero n acc each pos h rest = absurd (omega arith)
digits_loop-Passes p b (suc fuel) n acc each pos h rest = elim (Bool-cases (ltb n b)) [
  | inl small ↦ rw (small, digits_loop) (each n (ground arith), rest)
  | inr large ↦
      let above : b ≤ n = ground arith in
      let falls : n / b < n = div-lt_self (omega arith) (omega arith) in
      rw (large, digits_loop)
        (digits_loop-Passes p b fuel (n / b) (digit (n % b) ∷ acc) each pos (omega arith)
          (each (n % b) (mod-lt n (omega arith)), rest))
]

is_hex-digit : (d : ℕ) → d < 16 → is_hex (digit d) ≡ true
unfolding is_hex digit
is_hex-digit d h = ground arith

is_dec-digit : (d : ℕ) → d < 10 → is_dec (digit d) ≡ true
unfolding is_dec digit
is_dec-digit d h = ground arith

pub span-append :
    (p : ℕ → Bool) (s rest : Text) (c : ℕ)
    → Passes p s
    → p c ≡ false
    → span p (s ++ c ∷ rest) ≡ (s, c ∷ rest)
unfolding span
span-append p [] rest c hs hc = rw hc
span-append p (d ∷ s) rest c hs hc = rw (hs.0, span-append p s rest c hs.1 hc)

pub hex-Passes : (n : ℕ) → Passes is_hex (hex n)
unfolding hex
hex-Passes n = digits_loop-Passes is_hex 16 (suc n) n [] is_hex-digit (omega arith) (omega arith) tt

pub dec-Passes : (n : ℕ) → Passes is_dec (dec n)
unfolding dec
dec-Passes n = digits_loop-Passes is_dec 10 (suc n) n [] is_dec-digit (omega arith) (omega arith) tt

digits_loop-ne-nil : (b fuel n : ℕ) (acc : Text) → 1 < b → n < fuel → digits_loop b fuel n acc ≢ []
unfolding digits_loop
digits_loop-ne-nil b zero n acc pos h = absurd (omega arith)
digits_loop-ne-nil b (suc fuel) n acc pos h = elim (Bool-cases (ltb n b)) [
  | inl small ↦ rw (small, digits_loop) (λ e. cc e)
  | inr large ↦
      let above : b ≤ n = ground arith in
      let falls : n / b < n = div-lt_self (omega arith) (omega arith) in
      rw (large, digits_loop) (digits_loop-ne-nil b fuel (n / b) _ pos (omega arith))
]

pub hex-ne-nil : (n : ℕ) → hex n ≢ []
unfolding hex
hex-ne-nil n = digits_loop-ne-nil 16 (suc n) n [] (omega arith) (omega arith)

pub dec-ne-nil : (n : ℕ) → dec n ≢ []
unfolding dec
dec-ne-nil n = digits_loop-ne-nil 10 (suc n) n [] (omega arith) (omega arith)

-- A literal of a regular expression at the start of the text, and what is behind it.
unfoldable pub expect : Text → Text → Option Text
expect [] t = some t
expect (c ∷ s) [] = none
expect (c ∷ s) (d ∷ t) = if c == d then expect s t else none

-- Leading zeros.
pub value-zeros : (k : ℕ) (s : Text) → value 16 0 (replicate k b'0' ++ s) ≡ value 16 0 s
unfolding value digit_value
value-zeros zero s = refl
value-zeros (suc k) s = value-zeros k s

pub value-zero_pad : (w n : ℕ) → value 16 0 (zero_pad w (hex n)) ≡ n
unfolding zero_pad
value-zero_pad w n = value-zeros (w - length (hex n)) (hex n) ∙ value-hex n

pub zero_pad-Passes : (w n : ℕ) → Passes is_hex (zero_pad w (hex n))
unfolding zero_pad is_hex is_dec
zero_pad-Passes w n =
    All-append (λ c. is_hex c ≡ true) (replicate (w - length (hex n)) b'0') (hex n)
      (All-replicate _ _ b'0' refl) (hex-Passes n)

-- The number of digits.
length-digits_loop-le :
    (k fuel n : ℕ) (acc : Text)
    → n < 16 ^ suc k
    → n < fuel
    → length (digits_loop 16 fuel n acc) ≤ suc k + length acc
unfolding digits_loop
length-digits_loop-le k zero n acc h enough = absurd (omega arith)
length-digits_loop-le zero (suc fuel) n acc h enough =
    let small : ltb n 16 ≡ true = ground (arith, pow-suc 16 0) in
    rw (small, digits_loop) (omega arith)
length-digits_loop-le (suc k) (suc fuel) n acc h enough = elim (Bool-cases (ltb n 16)) [
  | inl small ↦ rw (small, digits_loop) (omega arith)
  | inr large ↦
      let above : 16 ≤ n = ground arith in
      let ih =
        length-digits_loop-le k fuel (n / 16) (digit (n % 16) ∷ acc)
          (omega (arith, h, pow-suc 16 (suc k))) (omega (arith, enough, above)) in
      rw (large, digits_loop) (omega (arith, ih))
]

pub length-hex8 : (n : ℕ) → n < 2 ^ 32 → length (hex8 n) ≡ 8
unfolding hex8 hex zero_pad
length-hex8 n h = omega (
  arith,
  length-append (replicate (8 - length (hex n)) b'0') (hex n),
  length-replicate {A = ℕ} (8 - length (hex n)) b'0',
  length-digits_loop-le 7 (suc n) n [] h (omega arith),
)
