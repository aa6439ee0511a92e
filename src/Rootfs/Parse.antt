-- ===== src/Rootfs/Parse.antt =====
-- `parse_config` of sw/linux/check_rootfs.py and the arguments of its `main`. A file is the list of its lines;
-- text is ASCII.
use koti.Base.{
  Option, none, some, Bool, false, ◌==◌, ◌||◌, ◌>>=◌, List, [], ◌∷◌, ◌++◌, if◌then◌else◌,
}
use mathlib.Core.List.{reverse}
use koti.Base.Text.{Text, codes, text_eq}
use koti.Base.Number.{expect, span}
use koti.Config.Parse.{Parsed, is_symbol, read_match}

-- `s.strip('"')`.
unfoldable pub drop_quotes : Text → Text
drop_quotes [] = []
drop_quotes (c ∷ s) = if c == b'"' then drop_quotes s else c ∷ s

unfoldable pub strip_quotes : Text → Text
unfolding drop_quotes
strip_quotes s = reverse (drop_quotes (reverse (drop_quotes s)))

-- `set_re.match`: the symbol, and its value without quotes.
unfoldable pub match_option : Text → Option (Text × Text)
unfolding expect is_symbol span strip_quotes
match_option line = do
  t ← expect (codes "BR2_") line
  let (name, rest) = span is_symbol t
  elim name [
    | [] ↦ none
    | c ∷ s ↦ elim rest [
      | [] ↦ none
      | d ∷ value ↦ if d == b'=' then some (codes "BR2_" ++ (c ∷ s), strip_quotes value) else none
    ]
  ]

-- `unset_re.match`: the symbol.
unfoldable pub match_no_option : Text → Option Text
unfolding expect is_symbol span text_eq
match_no_option line = do
  t ← expect (codes "# BR2_") line
  let (name, rest) = span is_symbol t
  elim name [
    | [] ↦ none
    | c ∷ s ↦ if text_eq rest (codes " is not set") then some (codes "BR2_" ++ (c ∷ s)) else none
  ]

-- The loop of `parse_config`, whose two branches are those of check_config.py.
unfoldable pub read_options : Parsed → List Text → Parsed
unfolding match_option match_no_option read_match
read_options p [] = p
read_options p (line ∷ lines) =
    read_options (read_match (match_option line) (match_no_option line) p) lines

unfoldable pub parse_options : List Text → Parsed
unfolding read_options
parse_options = read_options (record { values = []; seen = [] })

-- What `main` takes from its arguments.
pub record Options : Type 0 where
  pub config_only : Bool
  pub cpio : Option Text
  pub files : List Text

unfoldable pub has_arg : Text → List Text → Bool
unfolding text_eq
has_arg a [] = false
has_arg a (b ∷ args) = text_eq b a || has_arg a args

-- `args[i + 1]` and the arguments without these two; `none` is an IndexError.
unfoldable pub take_cpio : List Text → Option (Text × List Text)
unfolding text_eq
take_cpio [] = none
take_cpio (a ∷ []) = none
take_cpio (a ∷ b ∷ args) =
    let later = take_cpio (b ∷ args) in
    if text_eq a (codes "--cpio")
    then some (b, args)
    else (do (cpio, rest) ← later; some (cpio, a ∷ rest))

unfoldable pub without : Text → List Text → List Text
unfolding text_eq
without a [] = []
without a (b ∷ args) = let rest = without a args in if text_eq b a then rest else b ∷ rest

unfoldable pub read_args : List Text → Option Options
unfolding has_arg take_cpio without
read_args args =
    let config_only = has_arg (codes "--config-only") args in
    if has_arg (codes "--cpio") args
    then (do
      (cpio, rest) ← take_cpio args
      some (record {
        config_only = config_only;
        cpio = some cpio;
        files = without (codes "--config-only") rest;
      }))
    else some (record {
      config_only = config_only;
      cpio = none;
      files = without (codes "--config-only") args;
    })
