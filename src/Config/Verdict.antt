-- ===== src/Config/Verdict.antt =====
-- The verdict of `main` of sw/linux/check_config.py on the lines of a configuration.
use koti.Base.{ℕ, Option, none, some, Bool, true, false, ◌||◌, List, [], ◌∷◌}
use koti.Base.Text.{Text, codes, text_eq}
use koti.Config.Parse.{Parsed, parse_config, get, is_seen}

-- `want in ("n", "n?")`.
unfoldable pub wants_off : Text → Bool
wants_off want = text_eq want (codes "n") || text_eq want (codes "n?")

-- `got == want`.
unfoldable pub has_value : Option Text → Text → Bool
has_value none want = false
has_value (some got) want = text_eq got want

unfoldable pub is_off : Option Text → Bool
is_off none = true
is_off (some got) = false

-- `ok`.
unfoldable pub is_ok : Option Text → Text → Bool
is_ok got want = elim (wants_off want) [ true ↦ is_off got | false ↦ has_value got want ]

-- Whether a round of the loop leaves `bad` as it is.
unfoldable pub satisfies : Parsed → Text × Text → Bool
satisfies p (sym, want) = elim (is_seen p.seen sym) [
  | false ↦ text_eq want (codes "n?")
  | true ↦ is_ok (get p.values sym) want
]

-- The list `bad`, as symbols with what was wanted of them.
unfoldable pub find_bad : Parsed → List (Text × Text) → List (Text × Text)
find_bad p [] = []
find_bad p (r ∷ required) =
    let rest = find_bad p required in elim (satisfies p r) [ true ↦ rest | false ↦ r ∷ rest ]

-- The exit code for the lines of a file.
unfoldable pub check_config : List (Text × Text) → List Text → ℕ
check_config required lines = elim (find_bad (parse_config lines) required) [ [] ↦ 0 | r ∷ bad ↦ 1 ]
