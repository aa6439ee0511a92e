-- ===== src/Screen/Layout.antt =====
-- `lay_out` of tools/screenshot.py, the console of 80 columns and 60 rows.
use koti.Base.{
  ℕ, ◌+◌, Option, some, true, false, ◌==◌, ltb, leb, ◌&&◌, ◌>>=◌, List, [], ◌∷◌, ◌++◌, get_elem?,
  set, drop, replicate,
}
use koti.Base.Text.{Text}

abbrev pub cols : ℕ
cols = 80

abbrev pub rows : ℕ
rows = 60

-- `[0x20] * COLS`.
unfoldable pub blank : List ℕ
blank = replicate cols 32

-- The local variables of `lay_out`.
pub record Screen : Type 0 where
  pub buf : List (List ℕ)
  pub x : ℕ
  pub y : ℕ

-- `if y == ROWS`, with `scroll()`. The list is not empty there.
unfoldable pub scroll : Screen → Screen
scroll s = elim (s.y == rows) [
  | true ↦ record { buf = drop 1 s.buf ++ (blank ∷ []); x = s.x; y = 59 }
  | false ↦ s
]

-- `buf[y][x] = c`; `none` is an IndexError.
unfoldable pub put_cell : List (List ℕ) → ℕ → ℕ → ℕ → Option (List (List ℕ))
put_cell buf x y c = do row ← get_elem? buf y; old ← get_elem? row x; some (set buf y (set row x c))

-- One round of the loop, with the test at its end as an argument.
unfoldable pub step : (Screen → Screen) → Screen → ℕ → Option Screen
step settle s c = elim (c == 10) [
  | true ↦ some (settle (record s { x = 0; y = s.y + 1 }))
  | false ↦ elim (c == 13) [
    | true ↦ some (settle (record s { x = 0 }))
    | false ↦ elim (leb 32 c && ltb c 128) [
      | false ↦ some s
      | true ↦ do
        buf ← put_cell s.buf s.x s.y c
        elim (s.x + 1 == cols) [
          | true ↦ some (settle (record { buf = buf; x = 0; y = s.y + 1 }))
          | false ↦ some (settle (record { buf = buf; x = s.x + 1; y = s.y }))
        ]
    ]
  ]
]

unfoldable pub type_out : (Screen → Screen) → Screen → Text → Option Screen
type_out settle s [] = some s
type_out settle s (c ∷ text) = do t ← step settle s c; type_out settle t text

unfoldable pub empty_screen : Screen
empty_screen = record { buf = replicate rows blank; x = 0; y = 0 }

unfoldable pub lay_out : Text → Option (List (List ℕ))
lay_out text = do s ← type_out scroll empty_screen text; some s.buf
