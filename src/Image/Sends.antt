-- ===== src/Image/Sends.antt =====
-- The two checks of `main` of sw/linux/check_initramfs.py on the lines that a script sends to the modem: no
-- argument of `send` has a newline, and none is echoed by more than the receiving queue holds.
-- Characters above 127 count as no letters and no white space.
use koti.Base.{
  ℕ, zero, suc, ◌+◌, ◌-◌, ◌*◌, Option, none, some, Bool, true, false, ◌==◌, leb, ltb, ◌||◌, ◌&&◌,
  List, [], ◌∷◌, length, take, drop, get_elem?, if◌then◌else◌, ◌>>=◌,
}
use koti.Base.Text.{Text, lit}
use koti.Base.Number.{expect, is_dec}
use koti.Base.Strings.{contains, starts_with, drop_space, is_space, strip}
use koti.Image.Problem.{Problem, File, newline_sends, fat_sends}
use koti.Image.Scripts.{split}

-- `bytes.decode("utf-8")`: `left` bytes of the character `acc` are to come, the next one between `low`
-- and `high`; `none` is a UnicodeDecodeError.
unfoldable pub decode_utf8 : ℕ → ℕ → ℕ → ℕ → List ℕ → Option Text
decode_utf8 zero acc low high [] = some []
decode_utf8 (suc left) acc low high [] = none
decode_utf8 zero acc low high (b ∷ s) =
    let one = decode_utf8 0 0 0 0 s in
    let two = decode_utf8 1 (b - 192) 128 191 s in
    let three =
      decode_utf8 2 (b - 224) (if b == 224 then 160 else 128) (if b == 237 then 159 else 191) s in
    let four =
      decode_utf8 3 (b - 240) (if b == 240 then 144 else 128) (if b == 244 then 143 else 191) s in
    if ltb b 128
    then (do t ← one; some (b ∷ t))
    else if leb 194 b && leb b 223
    then two
    else if leb 224 b && leb b 239
    then three
    else if leb 240 b && leb b 244
    then four
    else none
decode_utf8 (suc left) acc low high (b ∷ s) =
    let last = decode_utf8 0 0 0 0 s in
    let more = decode_utf8 left (acc * 64 + (b - 128)) 128 191 s in
    if leb low b && leb b high
    then (if left == 0 then (do t ← last; some ((acc * 64 + (b - 128)) ∷ t)) else more)
    else none

-- Every end of a line is `\n` in the text that is read.
unfoldable pub one_newline : Text → Text
one_newline [] = []
one_newline (c ∷ []) = (if c == b'\r' then b'\n' else c) ∷ []
one_newline (c ∷ d ∷ s) =
    let both = one_newline s in
    let next = one_newline (d ∷ s) in
    if c == b'\r' then (if d == b'\n' then b'\n' ∷ both else b'\n' ∷ next) else c ∷ next

-- `p.read_text(encoding="utf-8")`.
unfoldable pub read_text : List ℕ → Option Text
unfolding decode_utf8 one_newline
read_text bytes = do t ← decode_utf8 0 0 0 0 bytes; some (one_newline t)

-- `\w`.
unfoldable pub is_word_char : ℕ → Bool
unfolding is_dec
is_word_char c =
    is_dec c || ((leb b'a' c && leb c b'z') || ((leb b'A' c && leb c b'Z') || (c == b'_')))

abbrev pub is_quote : ℕ → Bool
is_quote c = c == b'"' || c == b'\''

-- `send\s+(['"])` at the head of the text: the quote, and what follows it.
unfoldable pub send_here : Text → Option (ℕ × Text)
unfolding expect lit drop_space is_space
send_here s = do t ← expect (lit "send") s; if starts_space t then quoted (drop_space t) else none
  where
    starts_space : Text → Bool
    starts_space [] = false
    starts_space (c ∷ t) = is_space c

    quoted : Text → Option (ℕ × Text)
    quoted [] = none
    quoted (c ∷ t) = if is_quote c then some (c, t) else none

-- Whether a newline comes before the quote that ends the argument: the loop over `i`.
unfoldable pub breaks : ℕ → Text → Bool
breaks quote [] = false
breaks quote (c ∷ []) = if c == quote then false else c == b'\n'
breaks quote (c ∷ d ∷ s) =
    let skip = breaks quote s in
    let next = breaks quote (d ∷ s) in
    if quote == b'"' && c == b'\\'
    then skip
    else if c == quote
    then false
    else if c == b'\n'
    then true
    else next

-- The list `offenders`: `word` is whether a letter stands in front, `n` the number of the line.
unfoldable pub offenders : Bool → ℕ → Text → List ℕ
unfolding send_here breaks is_word_char
offenders word n [] = []
offenders word n (c ∷ s) =
    let rest = offenders (is_word_char c) (if c == b'\n' then suc n else n) s in
    elim (if word then none else send_here (c ∷ s)) [
      | none ↦ rest
      | some (quote, t) ↦ if breaks quote t then n ∷ rest else rest
    ]

-- `body[:body.rindex(q)]`, where `none` is that there is no `q`.
unfoldable pub before_last : ℕ → Text → Option Text
before_last q [] = none
before_last q (c ∷ s) =
    let rest = before_last q s in
    elim rest [ some t ↦ some (c ∷ t) | none ↦ if c == q then some [] else none ]

-- The payload of a line that sends text of its own.
unfoldable pub payload : Text → Option Text
unfolding strip starts_with lit before_last
payload line = do
  let t = strip line
  q ← (if starts_with (lit "send ") t then get_elem? t 5 else none)
  body ← (if is_quote q then before_last q (drop 6 t) else none)
  if starts_with (lit "$") body then none else some body

-- The list `fat`, of the lines from number `n` on: line, echo, and the payload's beginning.
unfoldable pub fat_lines : ℕ → List Text → List (ℕ × ℕ × Text)
unfolding payload
fat_lines n [] = []
fat_lines n (line ∷ lines) =
    let rest = fat_lines (suc n) lines in
    elim (payload line) [
      | none ↦ rest
      | some body ↦
          if ltb 64 (length body + 6) then (n, length body + 6, take 48 body) ∷ rest else rest
    ]

-- A file that is text with a `send` in it.
unfoldable pub sending : File → Option Text
unfolding read_text contains lit
sending f = do src ← read_text f.bytes; if contains (lit "send ") src then some src else none

unfoldable pub newline_problems : File → List Problem
unfolding sending offenders
newline_problems f = elim (sending f) [
  | none ↦ []
  | some src ↦ elim (offenders false 1 src) [ [] ↦ [] | n ∷ ns ↦ newline_sends f.rel (n ∷ ns) ∷ [] ]
]

unfoldable pub echo_problems : File → List Problem
unfolding sending fat_lines split
echo_problems f = elim (sending f) [
  | none ↦ []
  | some src ↦ elim (fat_lines 1 (split b'\n' src)) [
    | [] ↦ []
    | l ∷ ls ↦ fat_sends f.rel (l ∷ ls) ∷ []
  ]
]
