-- ===== src/Pins/Scan.antt =====
-- The expressions of fpga/ulx3s/check_pins.py for the lines of a constraint file. Text is ASCII.
use koti.Base.{
  ℕ, zero, suc, ◌+◌, ◌-◌, Option, none, some, Bool, not, ◌==◌, leb, ◌||◌, ◌&&◌, ◌>>=◌, List, [],
  ◌∷◌, length, if◌then◌else◌,
}
use koti.Base.Text.{Text, codes}
use koti.Base.Number.{is_dec, expect, span}
use koti.Base.Strings.{drop_space, is_space}

-- `re.findall` of an expression that begins with `^`, on lines: `skip` characters belong to the last
-- match, and `starts` is whether a line begins here.
unfoldable pub find_all {ℓ} : {A : Type ℓ} → (Text → Option (A × Text)) → ℕ → Bool → Text → List A
find_all here skip starts [] = []
find_all here (suc skip) starts (c ∷ s) = find_all here skip (c == b'\n') s
find_all here zero starts (c ∷ s) =
    let next = find_all here zero (c == b'\n') s in
    elim (if starts then here (c ∷ s) else none) [
      | none ↦ next
      | some (a, rest) ↦ a ∷ find_all here (length s - length rest) (c == b'\n') s
    ]

-- A capital letter as its small one.
unfoldable pub small : ℕ → ℕ
small c = if leb b'A' c && leb c b'Z' then c + 32 else c

-- The word in capitals or small letters, and what follows it.
unfoldable pub expect_word : Text → Text → Option Text
unfolding small
expect_word [] s = some s
expect_word (c ∷ word) [] = none
expect_word (c ∷ word) (d ∷ s) =
    let rest = expect_word word s in if small d == small c then rest else none

-- `\s+`.
unfoldable pub expect_space : Text → Option Text
unfolding is_space drop_space
expect_space [] = none
expect_space (c ∷ s) = if is_space c then some (drop_space s) else none

-- `"([^"]+)"`.
unfoldable pub expect_quoted : Text → Option (Text × Text)
unfolding expect span
expect_quoted s = do
  t ← expect (codes "\"") s
  let (name, rest) = span (λ (c : ℕ). not (c == b'"')) t
  u ← expect (codes "\"") rest
  elim name [ [] ↦ none | c ∷ n ↦ some (c ∷ n, u) ]

-- `LOCATE_RE`, `IOBUF_RE` and `FREQ_RE`.
unfoldable pub locate_here : Text → Option ((Text × Text) × Text)
unfolding expect_word expect_space expect_quoted expect drop_space
locate_here s = do
  t ← expect_word (codes "LOCATE") (drop_space s)
  t ← expect_space t
  t ← expect_word (codes "COMP") t
  t ← expect_space t
  (name, t) ← expect_quoted t
  t ← expect_space t
  t ← expect_word (codes "SITE") t
  t ← expect_space t
  (site, t) ← expect_quoted t
  t ← expect (codes ";") (drop_space t)
  some ((name, site), t)

unfoldable pub freq_here : Text → Option ((Text × Text) × Text)
unfolding expect_word expect_space expect_quoted expect drop_space span is_dec
freq_here s = do
  t ← expect_word (codes "FREQUENCY") (drop_space s)
  t ← expect_space t
  t ← expect_word (codes "PORT") t
  t ← expect_space t
  (port, t) ← expect_quoted t
  t ← expect_space t
  let (mhz, t) = span (λ (c : ℕ). is_dec c || (c == b'.')) t
  t ← expect_space t
  t ← expect_word (codes "MHZ") t
  t ← expect (codes ";") (drop_space t)
  elim mhz [ [] ↦ none | c ∷ n ↦ some ((port, c ∷ n), t) ]
