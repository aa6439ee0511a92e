-- ===== src/Pins/Verdict.antt =====
-- `main` of fpga/ulx3s/check_pins.py. Warnings, which change nothing of the outcome, are left out, and with
-- them `IOBUF_RE`.
use koti.Base.{
  ℕ, Option, none, some, Bool, true, false, not, ◌||◌, ◌>>=◌, List, [], ◌∷◌, ◌++◌, if◌then◌else◌,
}
use koti.Base.Text.{Text, codes, text_eq}
use koti.Config.Parse.{get}
use koti.Pins.Table.{expected_sites}
use koti.Pins.Scan.{find_all, locate_here, freq_here}
use koti.Pins.Clock.{far}
use koti.Pins.Ports.{module_ports}

-- An entry of `errors`, with what it names.
pub data PinError : Type 0 where
  no_locate : Text → PinError
  stale : Text → PinError
  wrong_site : Text → Text → PinError
  shared_site : Text → PinError
  no_frequency : PinError
  wrong_clock : Text → PinError
  disagrees : Text → Text → PinError

-- `d[k] = v` in a dict in the order of its keys.
unfoldable pub put_site : Text → Text → List (Text × Text) → List (Text × Text)
unfolding text_eq
put_site k v [] = (k, v) ∷ []
put_site k v ((j, w) ∷ d) =
    let rest = put_site k v d in if text_eq j k then (j, v) ∷ d else (j, w) ∷ rest

-- `dict(pairs)`, of pairs behind those that are there.
unfoldable pub dict_of : List (Text × Text) → List (Text × Text) → List (Text × Text)
unfolding put_site
dict_of d [] = d
dict_of d ((k, v) ∷ pairs) = dict_of (put_site k v d) pairs

unfoldable pub parse_locates : Text → List (Text × Text)
unfolding dict_of find_all locate_here
parse_locates text = dict_of [] (find_all locate_here 0 true text)

unfoldable pub is_one_of : Text → List Text → Bool
unfolding text_eq
is_one_of x [] = false
is_one_of x (y ∷ ys) = text_eq y x || is_one_of x ys

unfoldable pub is_located : Text → List (Text × Text) → Bool
unfolding text_eq
is_located x [] = false
is_located x ((k, v) ∷ d) = text_eq k x || is_located x d

-- The checks 1 to 4.
unfoldable pub locate_errors : List (Text × Text) → List Text → List PinError
unfolding is_located
locate_errors located [] = []
locate_errors located (bit ∷ bits) =
    (if is_located bit located then [] else no_locate bit ∷ []) ++ locate_errors located bits

unfoldable pub stale_errors : List Text → List (Text × Text) → List PinError
unfolding is_one_of
stale_errors ports [] = []
stale_errors ports ((name, site) ∷ located) =
    (if is_one_of name ports then [] else stale name ∷ []) ++ stale_errors ports located

unfoldable pub differs_from : Option Text → Text → Bool
unfolding text_eq
differs_from none site = false
differs_from (some want) site = not (text_eq want site)

unfoldable pub site_errors : List (Text × Text) → List (Text × Text) → List PinError
unfolding get differs_from
site_errors expected [] = []
site_errors expected ((name, site) ∷ located) =
    (if not (differs_from (get expected name) site) then [] else wrong_site name site ∷ [])
    ++ site_errors expected located

-- `seen` has the sites of the names in front.
unfoldable pub shared_errors : List Text → List (Text × Text) → List PinError
unfolding is_one_of
shared_errors seen [] = []
shared_errors seen ((name, site) ∷ located) =
    (if not (is_one_of site seen) then [] else shared_site site ∷ [])
    ++ shared_errors (site ∷ seen) located

-- Check 5.
unfoldable pub clock_errors : List (Text × Text) → Option (List PinError)
unfolding text_eq far
clock_errors [] = some []
clock_errors ((port, mhz) ∷ freqs) =
    let rest = clock_errors freqs in
    if text_eq port (codes "clk_25mhz")
    then (do off ← far mhz; es ← rest; some ((if not off then [] else wrong_clock mhz ∷ []) ++ es))
    else rest

unfoldable pub frequency_errors : List (Text × Text) → Option (List PinError)
unfolding clock_errors
frequency_errors [] = some (no_frequency ∷ [])
frequency_errors (f ∷ freqs) = clock_errors (f ∷ freqs)

-- Check 7, against the file of the other repository, where that is there.
unfoldable pub console_errors : Option Text → List (Text × Text) → List PinError
unfolding parse_locates get differs_from
console_errors none located = []
console_errors (some text) located = against (parse_locates text) located
  where
    against : List (Text × Text) → List (Text × Text) → List PinError
    against ref [] = []
    against ref ((name, site) ∷ rest) =
        (if not (differs_from (get ref name) site) then [] else disagrees name site ∷ [])
        ++ against ref rest

-- The files, where `none` is one that does not exist.
pub record Files : Type 0 where
  pub top : Option Text
  pub lpf : Option Text
  pub console : Option Text

unfoldable pub error_code : List PinError → ℕ
error_code [] = 0
error_code (e ∷ es) = 1

unfoldable pub check_texts : Text → Text → Option Text → Option ℕ
unfolding module_ports parse_locates find_all freq_here frequency_errors locate_errors stale_errors
    site_errors shared_errors console_errors error_code
check_texts top lpf console = do
  ports ← module_ports top
  clock ← frequency_errors (find_all freq_here 0 true lpf)
  let located = parse_locates lpf
  some (
      error_code (
        locate_errors located ports
        ++ (stale_errors ports located
            ++ (site_errors expected_sites located
                ++ (shared_errors [] located ++ (clock ++ console_errors console located))))))

-- The exit code of `main`; `none` is that Python raises.
unfoldable pub check_pins : Files → Option ℕ
unfolding check_texts
check_pins files = elim files.top [
  | none ↦ some 2
  | some top ↦ elim files.lpf [ none ↦ some 2 | some lpf ↦ check_texts top lpf files.console ]
]
