-- ===== src/Ktrace/Symbols.antt =====
-- `load_symbols` of tools/ktrace.py: the lines of a System.map as a sorted table. Text is ASCII; the
-- file is the list of its lines.
use koti.Base.{
  ℕ, Option, none, some, Bool, true, false, not, ◌==◌, ltb, ◌>>=◌, List, [], ◌∷◌, if◌then◌else◌,
}
use koti.Base.Int.{ℤ, ltb_ℤ, eq_ℤ}
use koti.Base.Strings.{is_space, drop_space, strip, int_hex}
use koti.Base.Text.{Text}
use koti.Base.Number.{span}

unfoldable pub is_word : ℕ → Bool
is_word c = not (is_space c)

-- `line.split(None, 2)` where it gives three parts: two words and what follows them.
unfoldable pub split_three : Text → Option (Text × Text × Text)
split_three line =
    let (first, after) = span is_word (drop_space line) in
    let (second, later) = span is_word (drop_space after) in
    elim (drop_space later) [ [] ↦ none | c ∷ s ↦ some (first, second, c ∷ s) ]

pub record Symbol : Type 0 where
  pub addr : ℤ
  pub name : Text

-- What one line adds to `syms`.
unfoldable pub symbol_of : Text → Option Symbol
symbol_of line = do
  (first, second, third) ← split_three line
  addr ← int_hex first
  some (record { addr = addr; name = strip third })

-- `a < b` on text and on the pairs of the table.
unfoldable pub text_lt : Text → Text → Bool
text_lt [] [] = false
text_lt [] (d ∷ t) = true
text_lt (c ∷ s) [] = false
text_lt (c ∷ s) (d ∷ t) = if ltb c d then true else if c == d then text_lt s t else false

unfoldable pub symbol_lt : Symbol → Symbol → Bool
symbol_lt a b =
    if ltb_ℤ a.addr b.addr
    then true
    else if eq_ℤ a.addr b.addr
    then text_lt a.name b.name
    else false

-- `syms.sort()`, as an insertion sort.
unfoldable pub insert_symbol : Symbol → List Symbol → List Symbol
insert_symbol x [] = x ∷ []
insert_symbol x (y ∷ ys) = if symbol_lt y x then y ∷ insert_symbol x ys else x ∷ y ∷ ys

unfoldable pub sort_symbols : List Symbol → List Symbol
sort_symbols [] = []
sort_symbols (x ∷ xs) = insert_symbol x (sort_symbols xs)

unfoldable pub read_symbols : List Text → List Symbol
read_symbols [] = []
read_symbols (line ∷ lines) =
    let rest = read_symbols lines in elim (symbol_of line) [ none ↦ rest | some s ↦ s ∷ rest ]

-- `none` is the exit on a file with no symbol.
unfoldable pub load_symbols : List Text → Option (List Symbol)
load_symbols lines = elim (read_symbols lines) [
  | [] ↦ none
  | s ∷ syms ↦ some (sort_symbols (s ∷ syms))
]
