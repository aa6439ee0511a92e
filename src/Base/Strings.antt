-- ===== src/Base/Strings.antt =====
-- Python's methods of `str` and `bytes` as the tools use them, and `int` of a text. The models take
-- texts on ASCII.
use Prim.Native.Nat.{ℕ, ◌+◌, ◌*◌, ◌-◌}
use mathlib.Core.Option.{Option, none, some}
use mathlib.Core.Bool.{Bool, true, false, ◌&&◌, ◌||◌}
use mathlib.Core.List.{[], ◌∷◌, ◌++◌, reverse}
use koti.Base.Tests.{leb, ◌==◌, if◌then◌else◌, ◌>>=◌}
use koti.Base.Int.{ℤ, pos, sub_ℕ}
use koti.Base.Text.{Text}
use koti.Base.Number.{expect, is_dec, is_hex, digit_value}

abbrev pub is_some {ℓ} : {A : Type ℓ} → Option A → Bool
is_some none = false
is_some (some a) = true

-- `s.startswith(prefix)`.
unfoldable pub starts_with : Text → Text → Bool
unfolding expect
starts_with prefix s = is_some (expect prefix s)

-- `sub in s`.
unfoldable pub contains : Text → Text → Bool
unfolding starts_with
contains sub [] = starts_with sub []
contains sub (c ∷ s) = starts_with sub (c ∷ s) || contains sub s

-- `s.split(sub, 1)[1]` for a `sub` that is there; `none` where it is not.
unfoldable pub behind : Text → Text → Option Text
unfolding expect
behind sub [] = expect sub []
behind sub (c ∷ s) =
    let rest = behind sub s in elim (expect sub (c ∷ s)) [ some t ↦ some t | none ↦ rest ]

-- `s.replace(old, new, 1)`.
unfoldable pub replace_first : Text → Text → Text → Text
unfolding expect
replace_first old new [] = []
replace_first old new (c ∷ s) =
    let rest = replace_first old new s in
    elim (expect old (c ∷ s)) [ some t ↦ new ++ t | none ↦ c ∷ rest ]

-- Whether every character passes the test.
unfoldable pub all_of : (ℕ → Bool) → Text → Bool
all_of p [] = true
all_of p (c ∷ s) = p c && all_of p s

-- `s.rstrip(chars)`, the characters given by their test.
unfoldable pub rstrip : (ℕ → Bool) → Text → Text
unfolding all_of
rstrip p [] = []
rstrip p (c ∷ s) =
    let rest = rstrip p s in elim (p c && all_of p s) [ true ↦ [] | false ↦ c ∷ rest ]

-- `c.isspace()`, of a code point that the models take.
unfoldable pub is_space : ℕ → Bool
is_space c = (leb 9 c && leb c 13) || (leb 28 c && leb c 32)

-- `s.lstrip()` and `s.strip()`.
unfoldable pub drop_space : Text → Text
drop_space [] = []
drop_space (c ∷ s) = if is_space c then drop_space s else c ∷ s

unfoldable pub strip : Text → Text
unfolding drop_space is_space
strip s = reverse (drop_space (reverse (drop_space s)))

-- `s.split(sep)[0]`.
unfoldable pub until : ℕ → Text → Text
until sep [] = []
until sep (c ∷ s) = let rest = until sep s in elim (c == sep) [ true ↦ [] | false ↦ c ∷ rest ]

-- The decimal number of digits between which single underscores may stand; `seen` is whether a digit
-- stands directly before.
unfoldable pub decimal : Bool → ℕ → Text → Option ℕ
unfolding is_dec
decimal seen n [] = elim seen [ true ↦ some n | false ↦ none ]
decimal seen n (c ∷ s) =
    let digit = decimal true (n * 10 + (c - b'0')) s in
    let gap = decimal false n s in
    elim (is_dec c) [
      | true ↦ digit
      | false ↦ elim (seen && c == b'_') [ true ↦ gap | false ↦ none ]
    ]

negated : Option ℕ → Option ℤ
negated none = none
negated (some n) = some (sub_ℕ 0 n)

positive : Option ℕ → Option ℤ
positive none = none
positive (some n) = some (pos n)

-- `int` of text without its outer space.
unfoldable pub signed : Text → Option ℤ
unfolding decimal negated positive
signed [] = none
signed (c ∷ s) = elim (c == b'-') [
  | true ↦ negated (decimal false 0 s)
  | false ↦ elim (c == b'+') [
    | true ↦ positive (decimal false 0 s)
    | false ↦ positive (decimal false 0 (c ∷ s))
  ]
]

-- `int(s)`, where `none` is a ValueError.
unfoldable pub int : Text → Option ℤ
unfolding signed strip
int s = signed (strip s)

-- The digits of `int(s, 16)`: an underscore may stand between two of them.
unfoldable pub int_digits : ℕ → Bool → Text → Option ℕ
int_digits n after_digit [] = if after_digit then some n else none
int_digits n after_digit (c ∷ s) =
    let skip = int_digits n false s in
    let next = int_digits (n * 16 + digit_value c) true s in
    if (c == b'_') && after_digit then skip else if is_hex c then next else none

-- The optional `0x`, behind which an underscore may stand.
unfoldable pub int_prefixed : Text → Option ℕ
int_prefixed (z ∷ x ∷ u ∷ s) =
    if (z == b'0') && ((x == b'x') || (x == b'X'))
    then (if u == b'_' then int_digits 0 false s else int_digits 0 false (u ∷ s))
    else int_digits 0 false (z ∷ x ∷ u ∷ s)
int_prefixed s = int_digits 0 false s

-- `int(s, 16)` on a word; `none` is the ValueError.
unfoldable pub int_hex : Text → Option ℤ
int_hex [] = none
int_hex (c ∷ s) =
    if c == b'-'
    then (do n ← int_prefixed s; some (sub_ℕ 0 n))
    else if c == b'+'
    then (do n ← int_prefixed s; some (pos n))
    else (do n ← int_prefixed (c ∷ s); some (pos n))
