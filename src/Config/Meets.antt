-- ===== src/Config/Meets.antt =====
-- What the verdict of sw/linux/check_config.py says of the lines of a configuration.
use koti.Base.{
  ◌≡◌, refl, ap, ◌∙◌, Option, none, some, Bool, true, false, ◌||◌, List, [], ◌∷◌, Bool-cases,
  Option-cases, inl, inr,
}
use koti.Base.Text.{Text, codes, text_eq}
use koti.Config.Parse.{
  Parsed, match_set, match_unset, read_match, read_line, read_lines, parse_config, get, is_seen,
}

-- The value that a line sets the symbol to.
unfoldable pub set_by : Option (Text × Text) → Text → Option Text
set_by none name = none
set_by (some (other, value)) name = elim (text_eq other name) [ true ↦ some value | false ↦ none ]

-- The line names the symbol, as set or as not set.
unfoldable pub names : Option (Text × Text) → Option Text → Text → Bool
names (some (other, value)) unset name = text_eq other name
names none (some other) name = text_eq other name
names none none name = false

-- The first of the two that is there.
abbrev pub first_of : Option Text → Option Text → Option Text
first_of (some v) o = some v
first_of none o = o

-- The value of the last line that sets the symbol.
unfoldable pub last_value : List Text → Text → Option Text
last_value [] name = none
last_value (line ∷ lines) name = first_of (last_value lines name) (set_by (match_set line) name)

unfoldable pub is_mentioned : List Text → Text → Bool
is_mentioned [] name = false
is_mentioned (line ∷ lines) name =
    is_mentioned lines name || names (match_set line) (match_unset line) name

-- The lines meet a requirement: for "n?" no line sets the symbol; for "n" in addition some line says
-- that it is not set; for another value the last line that sets the symbol sets it to that.
abbrev pub Meets : List Text → Text × Text → Type 0
Meets lines (name, want) = elim (text_eq want (codes "n?")) [
  | true ↦ last_value lines name ≡ none
  | false ↦ elim (text_eq want (codes "n")) [
    | true ↦ (last_value lines name ≡ none) × (is_mentioned lines name ≡ true)
    | false ↦ last_value lines name ≡ some want
  ]
]

get-read_match :
    (o : Option (Text × Text)) (u : Option Text) (p : Parsed) (name : Text)
    → (get (read_match o u p).values name ≡ first_of (set_by o name) (get p.values name))
      × (is_seen (read_match o u p).seen name ≡ names o u name || is_seen p.seen name)
unfolding read_match get set_by is_seen names
get-read_match (some (other, value)) u p name = elim (Bool-cases (text_eq other name)) [
  | inl same ↦ (rw (same, get, set_by) refl, rw (same, is_seen, names) refl)
  | inr different ↦ (rw (different, get, set_by) refl, rw (different, is_seen, names) refl)
]
get-read_match none (some other) p name = elim (Bool-cases (text_eq other name)) [
  | inl same ↦ (refl, rw (same, is_seen, names) refl)
  | inr different ↦ (refl, rw (different, is_seen, names) refl)
]
get-read_match none none p name = (refl, refl)

first_of_assoc : (a b c : Option Text) → first_of a (first_of b c) ≡ first_of (first_of a b) c
first_of_assoc (some v) b c = refl
first_of_assoc none b c = refl

or_assoc : (a b c : Bool) → a || (b || c) ≡ (a || b) || c
or_assoc true b c = refl
or_assoc false b c = refl

get-read_lines :
    (p : Parsed) (lines : List Text) (name : Text)
    → (get (read_lines p lines).values name ≡ first_of (last_value lines name) (get p.values name))
      × (is_seen (read_lines p lines).seen name ≡ is_mentioned lines name || is_seen p.seen name)
unfolding read_lines read_line last_value is_mentioned
get-read_lines p [] name = (refl, refl)
get-read_lines p (line ∷ lines) name =
    let (value, seen) = get-read_lines (read_line p line) lines name in
    let (value1, seen1) = get-read_match (match_set line) (match_unset line) p name in
    (
      value
          ∙ ap (first_of (last_value lines name)) value1
          ∙ first_of_assoc (last_value lines name) (set_by (match_set line) name)
              (get p.values name),
      seen
          ∙ ap (λ (b : Bool). is_mentioned lines name || b) seen1
          ∙ or_assoc (is_mentioned lines name) (names (match_set line) (match_unset line) name)
              (is_seen p.seen name),
    )

first_of-none : (o : Option Text) → first_of o none ≡ o
first_of-none none = refl
first_of-none (some v) = refl

or-false : (b : Bool) → b || false ≡ b
or-false true = refl
or-false false = refl

-- The dictionary and the set of `parse` are these two functions of the lines.
pub get-parse_config :
    (lines : List Text) (name : Text)
    → (get (parse_config lines).values name ≡ last_value lines name)
      × (is_seen (parse_config lines).seen name ≡ is_mentioned lines name)
unfolding parse_config get is_seen
get-parse_config lines name =
    let (value, seen) = get-read_lines (record { values = []; seen = [] }) lines name in
    (value ∙ first_of-none (last_value lines name), seen ∙ or-false (is_mentioned lines name))

-- A symbol that has a value is mentioned.
set_by-names :
    (o : Option (Text × Text)) (u : Option Text) (name v : Text)
    → set_by o name ≡ some v
    → names o u name ≡ true
unfolding set_by names
set_by-names none u name v e = absurd (cc)
set_by-names (some (other, value)) u name v e = elim (Bool-cases (text_eq other name)) [
  | inl same ↦ same
  | inr different ↦
      absurd
        (let nothing : set_by (some (other, value)) name ≡ none = rw (different, set_by) refl in cc)
]

pub last_value-is_mentioned :
    (lines : List Text) (name v : Text)
    → last_value lines name ≡ some v
    → is_mentioned lines name ≡ true
unfolding last_value is_mentioned
last_value-is_mentioned [] name v e = absurd (cc)
last_value-is_mentioned (line ∷ lines) name v e = elim (Option-cases (last_value lines name)) [
  | inr (w, later) ↦ let m = last_value-is_mentioned lines name w later in rw (m, is_mentioned) refl
  | inl never ↦
      let here : set_by (match_set line) name ≡ some v =
        (let t : last_value (line ∷ lines) name ≡ set_by (match_set line) name =
            rw (never, last_value) refl in
          cc) in
      let m = set_by-names (match_set line) (match_unset line) name v here in
      rw m (or-true (is_mentioned lines name))
]
  where
    or-true : (b : Bool) → b || true ≡ true
    or-true true = refl
    or-true false = refl
