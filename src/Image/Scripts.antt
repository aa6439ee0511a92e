-- ===== src/Image/Scripts.antt =====
-- Sections 4b and 5b of `main` of sw/linux/check_initramfs.py: the interfaces and gettys that the userspace
-- configures, and the parse of the overlay's scripts. Characters above 127 count as no white space.
use koti.Base.{
  ℕ, zero, suc, ◌-◌, Option, none, some, Bool, true, false, not, ◌==◌, ◌||◌, ◌&&◌, List, [], ◌∷◌,
  ◌++◌, length, take, if◌then◌else◌, ◌>>=◌,
}
use koti.Base.Text.{Text, lit, text_eq}
use koti.Base.Number.{expect, span}
use koti.Base.Strings.{contains, starts_with, until, drop_space, is_space, strip}
use koti.Cpio.Archive.{Member}
use koti.Image.Problem.{Problem, File, extra_interfaces, no_getty, bad_shell}
use koti.Image.Members.{find_member}

-- `s.split(sep)`.
unfoldable pub split : ℕ → Text → List Text
split sep [] = [] ∷ []
split sep (c ∷ s) = add (c == sep) c (split sep s)
  where
    add : Bool → ℕ → List Text → List Text
    add true c lines = [] ∷ lines
    add false c [] = (c ∷ []) ∷ []
    add false c (line ∷ lines) = (c ∷ line) ∷ lines

abbrev is_visible : ℕ → Bool
is_visible c = not (is_space c)

-- `\s*iface\s+(\S+)` at the head of the text: the name, and what follows it.
unfoldable pub iface_here : Text → Option (Text × Text)
unfolding expect lit drop_space is_space span
iface_here s = do
  t ← expect (lit "iface") (drop_space s)
  elim t [ [] ↦ none | c ∷ r ↦ if is_space c then named (span is_visible (drop_space r)) else none ]
  where
    named : Text × Text → Option (Text × Text)
    named ([], rest) = none
    named (c ∷ name, rest) = some (c ∷ name, rest)

-- The names that `re.findall` finds: `skip` characters belong to the last match, and an expression with
-- `^` is tried at the start of a line.
unfoldable pub ifaces : ℕ → Bool → Text → List Text
unfolding iface_here
ifaces skip starts [] = []
ifaces (suc skip) starts (c ∷ s) = ifaces skip (c == b'\n') s
ifaces zero starts (c ∷ s) =
    let next = ifaces zero (c == b'\n') s in
    elim (if starts then iface_here (c ∷ s) else none) [
      | none ↦ next
      | some (name, rest) ↦ name ∷ ifaces (length s - length rest) (c == b'\n') s
    ]

-- The names other than `lo`.
unfoldable pub not_lo : List Text → List Text
unfolding text_eq lit
not_lo [] = []
not_lo (i ∷ is) = let rest = not_lo is in if text_eq i (lit "lo") then rest else i ∷ rest

unfoldable pub interface_problems : List Member → List Problem
unfolding find_member ifaces not_lo
interface_problems ms = elim (find_member (lit "etc/network/interfaces") ms) [
  | none ↦ []
  | some m ↦ elim (not_lo (ifaces 0 true m.body)) [
    | [] ↦ []
    | i ∷ extra ↦ extra_interfaces (i ∷ extra) ∷ []
  ]
]

-- `::respawn:.*getty` at the head of the rest of a line.
unfoldable pub spawns_getty : Text → Bool
unfolding expect contains lit
spawns_getty s = elim (expect (lit "::respawn:") s) [
  | none ↦ false
  | some t ↦ contains (lit "getty") t
]

-- `(\S+)::respawn:.*getty` on a line: the longest name in front.
unfoldable pub getty_port : Text → Option Text
unfolding spawns_getty is_space
getty_port [] = none
getty_port (c ∷ s) =
    let longer = getty_port s in
    elim (is_space c) [
      | true ↦ none
      | false ↦ elim longer [
        | some name ↦ some (c ∷ name)
        | none ↦ if spawns_getty s then some (c ∷ []) else none
      ]
    ]

unfoldable pub getty_ports : List Text → List Text
unfolding getty_port
getty_ports [] = []
getty_ports (line ∷ lines) =
    let rest = getty_ports lines in elim (getty_port line) [ none ↦ rest | some p ↦ p ∷ rest ]

-- `want in ports`.
unfoldable pub is_in : Text → List Text → Bool
unfolding text_eq
is_in want [] = false
is_in want (p ∷ ports) = text_eq want p || is_in want ports

unfoldable pub getty_problem : List Text → Text → List Problem
unfolding is_in
getty_problem ports want = if is_in want ports then [] else no_getty want ports ∷ []

unfoldable pub getty_problems : List Member → List Problem
unfolding find_member getty_ports split getty_problem
getty_problems ms = elim (find_member (lit "etc/inittab") ms) [
  | none ↦ []
  | some m ↦
      let ports = getty_ports (split b'\n' m.body) in
      getty_problem ports (lit "tty1") ++ getty_problem ports (lit "hvc0")
]

-- A file that the program takes for a shell script.
unfoldable pub is_script : List ℕ → Bool
unfolding starts_with contains until lit
is_script bytes =
    let head = take 64 bytes in
    starts_with (lit "#!") head && contains (lit "sh") (until b'\n' head)

unfoldable pub says : Option Text → Text → List Problem
unfolding strip
says none rel = []
says (some message) rel = bad_shell rel (strip message) ∷ []

unfoldable pub shell_problems : Option (List ℕ → Option Text) → File → List Problem
unfolding is_script says
shell_problems none f = []
shell_problems (some sh) f = if is_script f.bytes then says (sh f.bytes) f.rel else []
