-- ===== src/Config/Parse.antt =====
-- `parse` of sw/linux/check_config.py. A file is the list of its lines; text is ASCII.
use koti.Base.{
  ℕ, Option, none, some, Bool, true, false, leb, ◌==◌, ◌&&◌, ◌||◌, ◌>>=◌, List, [], ◌∷◌, ◌++◌,
}
use koti.Base.Text.{Text, codes, text_eq}
use koti.Base.Number.{is_dec, expect, span}

-- `[A-Za-z0-9_]`.
unfoldable pub is_symbol : ℕ → Bool
is_symbol c = is_dec c || (leb b'a' c && leb c b'z') || (leb b'A' c && leb c b'Z') || (c == b'_')

-- `set_re.match`: the symbol and its value.
unfoldable pub match_set : Text → Option (Text × Text)
match_set line = do
  t ← expect (codes "CONFIG_") line
  let (name, rest) = span is_symbol t
  elim name [
    | [] ↦ none
    | c ∷ s ↦ elim rest [
      | [] ↦ none
      | d ∷ value ↦ elim (d == b'=') [
        | true ↦ some (codes "CONFIG_" ++ (c ∷ s), value)
        | false ↦ none
      ]
    ]
  ]

-- `unset_re.match`: the symbol.
unfoldable pub match_unset : Text → Option Text
match_unset line = do
  t ← expect (codes "# CONFIG_") line
  let (name, rest) = span is_symbol t
  elim name [
    | [] ↦ none
    | c ∷ s ↦ elim (text_eq rest (codes " is not set")) [
      | true ↦ some (codes "CONFIG_" ++ (c ∷ s))
      | false ↦ none
    ]
  ]

-- The dictionary `values`, the newest entry first, and the set `seen`.
pub record Parsed : Type 0 where
  pub values : List (Text × Text)
  pub seen : List Text

-- What a line adds that matches one of the two expressions; the first is tried first.
unfoldable pub read_match : Option (Text × Text) → Option Text → Parsed → Parsed
read_match (some (name, value)) unset p = record {
  values = (name, value) ∷ p.values;
  seen = name ∷ p.seen;
}
read_match none (some name) p = record p { seen = name ∷ p.seen }
read_match none none p = p

unfoldable pub read_line : Parsed → Text → Parsed
read_line p line = read_match (match_set line) (match_unset line) p

unfoldable pub read_lines : Parsed → List Text → Parsed
read_lines p [] = p
read_lines p (line ∷ lines) = read_lines (read_line p line) lines

unfoldable pub parse_config : List Text → Parsed
parse_config = read_lines (record { values = []; seen = [] })

-- `cfg.get(sym)` and `sym in seen`.
unfoldable pub get : List (Text × Text) → Text → Option Text
get [] sym = none
get ((name, value) ∷ values) sym = elim (text_eq name sym) [
  | true ↦ some value
  | false ↦ get values sym
]

unfoldable pub is_seen : List Text → Text → Bool
is_seen [] sym = false
is_seen (name ∷ seen) sym = elim (text_eq name sym) [ true ↦ true | false ↦ is_seen seen sym ]
