-- ===== src/Pins/Clock.antt =====
-- The test of a frequency in check 5 of fpga/ulx3s/check_pins.py, `abs(float(mhz) - 25.0) > 0.001`.
use koti.Base.{
  ℕ, ◌+◌, ◌-◌, ◌*◌, ◌/◌, ◌%◌, ◌^◌, Option, none, some, Bool, true, false, not, ◌==◌, ltb,
  ◌&&◌, ◌||◌, ◌>>=◌, [], ◌∷◌, if◌then◌else◌,
}
use koti.Base.Text.{Text}
use koti.Base.Number.{is_dec}

-- Digits with one point at most, as the number `n` over `10 ^ k`: `digits` is whether there was a digit,
-- `point` whether there was a point. `none` is the ValueError of `float`; a sign or an exponent does not
-- pass FREQ_RE.
unfoldable pub read_decimal : Bool → Bool → ℕ → ℕ → Text → Option (ℕ × ℕ)
unfolding is_dec
read_decimal digits point n k [] = if digits then some (n, k) else none
read_decimal digits point n k (c ∷ s) =
    let digit = read_decimal true point (n * 10 + (c - b'0')) (if point then k + 1 else k) s in
    let behind = read_decimal digits true n k s in
    if is_dec c then digit else if (c == b'.') && not point then behind else none

-- `a / d` to the nearest whole number, and where two are as near to the even one.
unfoldable pub round_even : ℕ → ℕ → ℕ
round_even a d =
    let q = a / d in
    let r = a % d in if ltb (2 * r) d || ((2 * r == d) && (q % 2 == 0)) then q else q + 1

-- The unit of a double from 16 to 32: 53 bits, of which 5 stand before the point.
abbrev pub unit : ℕ
unit = 281474976710656

-- Whether `n / 10 ^ k` is far. Between 16 and 32 the double is the number rounded to units, and its
-- difference from 25.0 is exact; the double 0.001 lies between 281474976710 and 281474976711 units. A
-- number outside is further away than that, rounded or not.
unfoldable pub is_far : ℕ → ℕ → Bool
unfolding round_even
is_far n k =
    let r = round_even (n * unit) (10 ^ k) in
    ltb (25 * unit + 281474976710) r || ltb (r + 281474976710) (25 * unit)

unfoldable pub far : Text → Option Bool
unfolding read_decimal is_far
far mhz = do (n, k) ← read_decimal false false 0 0 mhz; some (is_far n k)
