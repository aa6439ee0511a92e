-- ===== src/Ktrace/Lines.antt =====
-- The trace lines of tools/ktrace.py: its two regular expressions and `parse`. Text is ASCII. Behind
-- each repeated class of the expressions stands a character outside the class, so taking the longest
-- prefix is what the matcher does.
use koti.Base.{ℕ, Option, none, some, Bool, ◌&&◌, ◌==◌, ◌>>=◌, List, [], ◌∷◌, if◌then◌else◌}
use koti.Base.Int.{ℤ, pos, ◌+ℤ◌, ◌-ℤ◌}
use koti.Base.Text.{Text, lit}
use koti.Base.Number.{expect, is_dec, is_hex, value, span}

-- A repeated class, read by `int` in a base.
unfoldable pub number : (ℕ → Bool) → ℕ → Text → Option (ℕ × Text)
number p base t =
    let (digits, rest) = span p t in
    elim digits [ [] ↦ none | c ∷ s ↦ some (value base 0 (c ∷ s), rest) ]

-- `\d`.
unfoldable pub flag : Text → Option (ℕ × Text)
flag [] = none
flag (c ∷ t) = if is_dec c then some (c, t) else none

pub record Row : Type 0 where
  pub clock : ℕ
  pub va : ℤ
  pub tag : Text
  pub stalled : Bool

-- A request that is up and not acknowledged.
unfoldable pub is_stalled : ℕ → ℕ → Bool
is_stalled rq ak = (rq == b'1') && (ak == b'0')

-- `RE_FETCH.match` and the row made of it.
unfoldable pub fetch_row : ℕ → ℕ → Text → Option Row
fetch_row load_pa load_va line = do
  t ← expect (lit "[") line
  (clk, t) ← number is_dec 10 t
  t ← expect (b']' ∷ lit " fetch ") t
  (pa, t) ← number is_hex 16 t
  t ← expect (b' ' ∷ lit "if(rq") t
  (_, t) ← flag t
  t ← expect (lit " ak") t
  (_, t) ← flag t
  t ← expect (lit ") d ") t
  (_, t) ← number is_hex 16 t
  t ← expect (b' ' ∷ lit "(rq") t
  (rq, t) ← flag t
  t ← expect (lit " we") t
  (_, t) ← flag t
  t ← expect (lit " ak") t
  (ak, t) ← flag t
  _ ← expect (lit ")") t
  some (record {
    clock = clk;
    va = (pos pa -ℤ pos load_pa) +ℤ pos load_va;
    tag = lit "fetch";
    stalled = is_stalled rq ak;
  })

-- `RE_PC.match` and the row made of it.
unfoldable pub pc_row : Text → Option Row
pc_row line = do
  t ← expect (lit "[") line
  (clk, t) ← number is_dec 10 t
  t ← expect (b']' ∷ lit " pc_d ") t
  (va, t) ← number is_hex 16 t
  t ← expect (b' ' ∷ lit "pc_e ") t
  (_, t) ← number is_hex 16 t
  t ← expect (b' ' ∷ lit "| d ") t
  (_, t) ← number is_hex 16 t
  t ← expect (b' ' ∷ lit "rq") t
  (rq, t) ← flag t
  t ← expect (lit " we") t
  (_, t) ← flag t
  t ← expect (lit " ak") t
  (ak, _) ← flag t
  some (record { clock = clk; va = pos va; tag = lit "pc_d"; stalled = is_stalled rq ak })

-- The rows of one line: a line of neither form has none.
unfoldable pub row : ℕ → ℕ → Text → Option Row
row load_pa load_va line = elim (fetch_row load_pa load_va line) [
  | some r ↦ some r
  | none ↦ pc_row line
]

unfoldable pub parse : ℕ → ℕ → List Text → List Row
parse load_pa load_va [] = []
parse load_pa load_va (line ∷ lines) =
    let rest = parse load_pa load_va lines in
    elim (row load_pa load_va line) [ none ↦ rest | some r ↦ r ∷ rest ]
