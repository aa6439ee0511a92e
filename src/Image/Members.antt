-- ===== src/Image/Members.antt =====
-- Sections 1 to 4 and 5 of `main` of sw/linux/check_initramfs.py: size, required members, the marker,
-- /init, the binaries, and the files of the overlay.
use koti.Base.{
  ℕ, suc, ◌*◌, ◌/◌, ◌%◌, Option, none, some, Bool, true, false, not, ◌==◌, leb, ◌&&◌, List, [], ◌∷◌,
  ◌++◌, length, if◌then◌else◌, ◌>>=◌,
}
use koti.Base.Int.{pos, negsuc}
use koti.Base.Text.{Text, lit, text_eq}
use koti.Base.Strings.{contains, starts_with, until, drop_space, is_space}
use koti.Base.Number.{expect, span}
use koti.Cpio.Archive.{Member}
use koti.Image.Elf.{Facts, elf_facts_bytes, elf_problems}
use koti.Image.Problem.{
  Problem, File, too_big, missing, not_char_device, not_executable, no_marker, init_lacks, has_cr,
  no_shebang, bad_elf, not_in_cpio, differs,
}

-- `by_name.get(name)`: a later member of the name hides an earlier one.
unfoldable pub find_member : Text → List Member → Option Member
unfolding text_eq
find_member name [] = none
find_member name (m ∷ ms) =
    let later = find_member name ms in
    elim later [ some k ↦ some k | none ↦ if text_eq m.name name then some m else none ]

-- `stat.S_IFMT(mode)`; a negative mode is an OverflowError.
unfoldable pub kind : Member → Option ℕ
kind m = elim m.mode [ pos n ↦ some (n / 4096 % 16 * 4096) | negsuc n ↦ none ]

abbrev pub char_device : ℕ
char_device = 8192

abbrev pub regular : ℕ
regular = 32768

-- `mode & 0o111`, of a mode that `kind` takes.
unfoldable pub is_executable : Member → Bool
is_executable m = elim m.mode [
  | pos n ↦ not (n % 2 == 0 && n / 8 % 2 == 0 && n / 64 % 2 == 0)
  | negsuc n ↦ true
]

unfoldable pub size_problems : List ℕ → List Problem
size_problems blob = if leb (length blob) (2560 * 1024) then [] else too_big (length blob) ∷ []

-- `REQUIRED_MEMBERS`, sorted: the name, and whether the file must be executable.
abbrev pub required_members : List (Text × Bool)
required_members =
    (lit "bin/busybox", true)
    ∷ (lit "dev/console", false)
    ∷ (lit "etc/init.d/S99koti", true)
    ∷ (lit "etc/inittab", false)
    ∷ (lit "init", true)
    ∷ (lit "sbin/init", false)
    ∷ (lit "sbin/switch_root", false)
    ∷ []

unfoldable pub present_problems : Text → Bool → Member → ℕ → List Problem
unfolding is_executable
present_problems name must_exec m k =
    if text_eq name (lit "dev/console") && not (k == char_device)
    then not_char_device ∷ []
    else if must_exec && (k == regular && not (is_executable m))
    then not_executable name ∷ []
    else []

-- The program asks for the kind of these two sorts of member only.
unfoldable pub asks_kind : Text → Bool → Bool
unfolding text_eq lit
asks_kind name must_exec = if text_eq name (lit "dev/console") then true else must_exec

unfoldable pub required_problems : List Member → Text × Bool → Option (List Problem)
unfolding find_member asks_kind kind present_problems
required_problems ms (name, must_exec) = elim (find_member name ms) [
  | none ↦ some (missing name ∷ [])
  | some m ↦ elim (asks_kind name must_exec) [
    | true ↦ (kind m >>= λ (k : ℕ). some (present_problems name must_exec m k))
    | false ↦ some []
  ]
]

-- `f` on each element, with the exceptions of Python.
unfoldable pub on_each {ℓ} :
    {A : Type ℓ} → (A → Option (List Problem)) → List A → Option (List Problem)
on_each f [] = some []
on_each f (x ∷ xs) = do ps ← f x; qs ← on_each f xs; some (ps ++ qs)

-- The expression of `marker_from_tb` at the head of the text.
unfoldable pub marker_here : Text → Option Text
unfolding expect lit drop_space is_space span
marker_here s = do
  t ← expect (lit "localparam") s
  t ← some_space t
  t ← expect (lit "[8*MARKLEN-1:0]") t
  t ← some_space t
  t ← expect (lit "MARKER") t
  t ← expect (lit "=") (drop_space t)
  t ← expect (lit "\"") (drop_space t)
  let (marker, rest) = span (λ (c : ℕ). not (c == b'"')) t
  t ← expect (lit "\"") rest
  some marker
  where
    some_space : Text → Option Text
    some_space [] = none
    some_space (c ∷ t) = if is_space c then some (drop_space t) else none

-- `none` where the bench has no such line, on which the program exits.
unfoldable pub marker_from_tb : Text → Option Text
unfolding marker_here
marker_from_tb [] = none
marker_from_tb (c ∷ s) =
    let later = marker_from_tb s in elim (marker_here (c ∷ s)) [ some t ↦ some t | none ↦ later ]

unfoldable pub marker_problems : Text → List Member → List Problem
unfolding find_member
marker_problems marker ms = elim (find_member (lit "etc/init.d/S99koti") ms) [
  | none ↦ []
  | some m ↦ if contains marker m.body then [] else no_marker ∷ []
]

-- `data.count(byte)`.
unfoldable pub count_byte : ℕ → List ℕ → ℕ
count_byte b [] = 0
count_byte b (c ∷ s) = if c == b then suc (count_byte b s) else count_byte b s

unfoldable pub lacks : List ℕ → Text → List Problem
lacks body needle = if contains needle body then [] else init_lacks needle ∷ []

unfoldable pub init_body_problems : List ℕ → List Problem
unfolding lacks count_byte
init_body_problems body =
    lacks body (lit "switch_root")
    ++ (lacks body (lit "root stays in RAM")
        ++ ((if count_byte b'\r' body == 0 then [] else has_cr (count_byte b'\r' body) ∷ [])
            ++ (if starts_with (lit "#!") (until b'\n' body) then [] else no_shebang ∷ [])))

unfoldable pub init_problems : List Member → List Problem
unfolding find_member init_body_problems
init_problems ms = elim (find_member (lit "init") ms) [
  | none ↦ []
  | some m ↦ init_body_problems m.body
]

-- What is said against a regular file that is a binary.
unfoldable pub reasons : Option Facts → Text → List Problem
unfolding elf_problems
reasons none name = []
reasons (some f) name = elim (elf_problems f) [ [] ↦ [] | r ∷ rs ↦ bad_elf name (r ∷ rs) ∷ [] ]

unfoldable pub binary_problems : Member → Option (List Problem)
unfolding kind elf_facts_bytes reasons
binary_problems m = do
  k ← kind m
  some (if k == regular then reasons (elf_facts_bytes m.body) m.name else [])

unfoldable pub overlay_problems : List Member → File → List Problem
unfolding find_member text_eq
overlay_problems ms f = elim (find_member f.rel ms) [
  | none ↦ not_in_cpio f.rel ∷ []
  | some m ↦ if text_eq m.body f.bytes then [] else differs f.rel ∷ []
]
