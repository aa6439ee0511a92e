-- ===== src/Pins/Ports.antt =====
-- `module_ports` of fpga/ulx3s/check_pins.py: every bit of the ports of the board's top module.
use koti.Base.{
  ℕ, zero, suc, ◌+◌, ◌-◌, Option, none, some, true, ◌==◌, leb, ◌||◌, ◌>>=◌, List, [], ◌∷◌, ◌++◌,
  if◌then◌else◌,
}
use koti.Base.Text.{Text, codes, dec}
use koti.Base.Number.{is_dec, value, expect, span}
use koti.Base.Strings.{drop_space, behind}
use koti.Config.Parse.{is_symbol}
use koti.Pins.Scan.{find_all, expect_space}

-- A port with the two numbers of its range, if it has one.
pub record Port : Type 0 where
  pub range : Option (ℕ × ℕ)
  pub name : Text

-- `\s*(\d+)\s*`.
unfoldable pub expect_number : Text → Option (ℕ × Text)
unfolding span is_dec value drop_space
expect_number s =
    let (digits, t) = span is_dec (drop_space s) in
    elim digits [ [] ↦ none | c ∷ n ↦ some (value 10 0 (c ∷ n), drop_space t) ]

-- `(\w+)\s*[,)]`.
unfoldable pub expect_name : Option (ℕ × ℕ) → Text → Option (Port × Text)
unfolding span is_symbol drop_space
expect_name range s =
    let (name, t) = span is_symbol s in
    elim name [ [] ↦ none | c ∷ n ↦ ended (c ∷ n) (drop_space t) ]
  where
    ended : Text → Text → Option (Port × Text)
    ended name [] = none
    ended name (c ∷ t) =
        if (c == b',') || (c == b')') then some (record { range = range; name = name }, t) else none

-- The rest of `PORT_RE` behind the word for the type: the optional range, and the name.
unfoldable pub expect_port : Text → Option (Port × Text)
unfolding expect expect_number expect_name drop_space
expect_port s = elim (expect (codes "[") (drop_space s)) [
  | none ↦ expect_name none (drop_space s)
  | some t ↦ do
    (hi, t) ← expect_number t
    t ← expect (codes ":") t
    (lo, t) ← expect_number t
    t ← expect (codes "]") t
    expect_name (some (hi, lo)) (drop_space t)
]

-- The first of the words that stands there.
unfoldable pub expect_one : List Text → Text → Option Text
unfolding expect
expect_one [] s = none
expect_one (w ∷ words) s =
    let rest = expect_one words s in elim (expect w s) [ some t ↦ some t | none ↦ rest ]

-- `PORT_RE`. Where no port follows a word for the type, the word is tried as the name.
unfoldable pub port_here : Text → Option (Port × Text)
unfolding expect_one expect_space expect_port drop_space
port_here s = do
  t ← expect_one (codes "input" ∷ codes "output" ∷ codes "inout" ∷ []) (drop_space s)
  t ← expect_space t
  first_of (expect_one (codes "wire" ∷ codes "logic" ∷ codes "reg" ∷ []) t >>= expect_port)
      (expect_port t)
  where
    first_of : Option (Port × Text) → Option (Port × Text) → Option (Port × Text)
    first_of (some p) o = some p
    first_of none o = o

-- The text in front of `sub`, or all of it.
unfoldable pub text_before : Text → Text → Text
unfolding expect
text_before sub [] = []
text_before sub (c ∷ s) =
    let rest = text_before sub s in elim (expect sub (c ∷ s)) [ some t ↦ [] | none ↦ c ∷ rest ]

-- `name[i]` for `n` numbers from `i` on.
unfoldable pub bits_from : Text → ℕ → ℕ → List Text
unfolding dec
bits_from name zero i = []
bits_from name (suc n) i = (name ++ (codes "[" ++ (dec i ++ codes "]"))) ∷ bits_from name n (suc i)

unfoldable pub bits_of : Port → List Text
unfolding bits_from
bits_of p = elim p.range [
  | none ↦ p.name ∷ []
  | some (hi, lo) ↦
      if leb lo hi then bits_from p.name (hi - lo + 1) lo else bits_from p.name (lo - hi + 1) hi
]

unfoldable pub all_bits : List Port → List Text
unfolding bits_of
all_bits [] = []
all_bits (p ∷ ports) = bits_of p ++ all_bits ports

-- `none` is an IndexError: the text has no such module.
unfoldable pub module_ports : Text → Option (List Text)
unfolding behind text_before find_all port_here all_bits
module_ports text = do
  body ← behind (codes "module ulx3s_top") text
  some (all_bits (find_all port_here 0 true (text_before (codes ");") body ++ codes ")")))
