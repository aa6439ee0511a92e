-- ===== src/Base/Text.antt =====
-- Text as a list of code points, and the number formats of Python's f-strings.
use Prim.Native.Nat.{ℕ, zero, suc, ◌+◌, ◌-◌, ◌/◌, ◌%◌}
use Prim.Native.Char.{code}
use Prim.Native.String.{String}
use mathlib.Core.Bool.{Bool, true, false, ◌&&◌}
use mathlib.Core.List.{List, [], ◌∷◌, ◌++◌}
use koti.Base.Tests.{ltb, ◌==◌, if◌then◌else◌}
use koti.Base.Lists.{length, replicate}
use koti.Base.Int.{ℤ, pos, negsuc}

abbrev pub Text : Type 0
Text = List ℕ

abbrev pub codes : String → Text
codes String.[] = []
codes (String.◌∷◌ c s) = code c ∷ codes s

-- A literal of the program. It stays shut, so that a proof does not compute with its letters.
unfoldable pub lit : String → Text
lit s = codes s

unfoldable pub digit : ℕ → ℕ
digit n = if ltb n 10 then b'0' + n else b'a' + (n - 10)

-- The digits of `n` in base `b`, in front of `acc`; more fuel than `n` is enough when `b` is at
-- least 2, since each round divides `n`.
unfoldable pub digits_loop : ℕ → ℕ → ℕ → Text → Text
digits_loop b zero n acc = acc
digits_loop b (suc fuel) n acc = elim (ltb n b) [
  | true ↦ digit n ∷ acc
  | false ↦ digits_loop b fuel (n / b) (digit (n % b) ∷ acc)
]

-- `f"{n:x}"`.
unfoldable pub hex : ℕ → Text
unfolding digits_loop digit
hex n = digits_loop 16 (suc n) n []

-- `f"{n}"`.
unfoldable pub dec : ℕ → Text
unfolding digits_loop digit
dec n = digits_loop 10 (suc n) n []

-- `f"{z}"` of a signed integer.
unfoldable pub dec_ℤ : ℤ → Text
unfolding dec
dec_ℤ (pos n) = dec n
dec_ℤ (negsuc n) = b'-' ∷ dec (n + 1)

-- Padding with zeros to a width, as in `:08x`.
unfoldable pub zero_pad : ℕ → Text → Text
zero_pad w s = replicate (w - length s) b'0' ++ s

-- `f"{n:08x}"` and `f"{n:02x}"`.
unfoldable pub hex8 : ℕ → Text
unfolding hex zero_pad
hex8 n = zero_pad 8 (hex n)

unfoldable pub hex2 : ℕ → Text
unfolding hex zero_pad
hex2 n = zero_pad 2 (hex n)

-- `a == b` on text.
unfoldable pub text_eq : Text → Text → Bool
text_eq [] [] = true
text_eq [] (d ∷ t) = false
text_eq (c ∷ s) [] = false
text_eq (c ∷ s) (d ∷ t) = (c == d) && text_eq s t

-- `s * n` on text.
unfoldable pub repeat_text : ℕ → Text → Text
repeat_text zero s = []
repeat_text (suc n) s = s ++ repeat_text n s
