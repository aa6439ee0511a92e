-- ===== src/Pins/Near.antt =====
-- What check 5 of fpga/ulx3s/check_pins.py lets pass is near 25 MHz, whatever the rounding does.
use koti.Base.{
  ℕ, zero, suc, ◌+◌, ◌-◌, ◌*◌, ◌/◌, ◌%◌, ◌^◌, ◌≤◌, ◌<◌, ◌≡◌, arith, false, ◌==◌,
  ltb, ◌&&◌, ◌||◌, Bool-cases, inl, inr,
}
use native.Mathlib.Nat.{div-add-mod, mod-lt, mul-le-mul_left, pow-suc}
use koti.Pins.Clock.{round_even, unit, is_far}

pow-positive : (k : ℕ) → 0 < 10 ^ k
pow-positive zero = omega arith
pow-positive (suc k) = omega (arith, pow-suc 10 k, pow-positive k)

-- The rounded number is within a half of the fraction.
round_even-near :
    (a d : ℕ)
    → 0 < d
    → (2 * a ≤ 2 * (d * round_even a d) + d) × (2 * (d * round_even a d) ≤ 2 * a + d)
unfolding round_even
round_even-near a d h =
    elim (Bool-cases (ltb (2 * (a % d)) d || ((2 * (a % d) == d) && (a / d % 2 == 0)))) [
      | inl down ↦
          let small : 2 * (a % d) ≤ d = ground arith in
          rw down (omega (arith, div-add-mod a d, small), omega (arith, div-add-mod a d))
      | inr up ↦
          let big : d ≤ 2 * (a % d) = ground arith in
          let next : d * (a / d + 1) ≡ d * (a / d) + d = omega arith in
          rw (up, next)
            (omega (arith, div-add-mod a d, mod-lt a h), omega (arith, div-add-mod a d, big))
    ]

-- A frequency that is not far is less than 0.001 from 25, as the fraction that its digits write.
pub is_far-near :
    (n k : ℕ) → is_far n k ≡ false → (24999 * 10 ^ k < 1000 * n) × (1000 * n < 25001 * 10 ^ k)
unfolding is_far
is_far-near n k e =
    near (10 ^ k) (pow-positive k) (round_even (n * unit) (10 ^ k))
      (round_even-near (n * unit) (10 ^ k) (pow-positive k)) e
  where
    near :
        (d : ℕ)
        → 0 < d
        → (r : ℕ) → (2 * (n * unit) ≤ 2 * (d * r) + d) × (2 * (d * r) ≤ 2 * (n * unit) + d)
        → (ltb (25 * unit + 281474976710) r || ltb (r + 281474976710) (25 * unit)) ≡ false
        → (24999 * d < 1000 * n) × (1000 * n < 25001 * d)
    near d h r (low, high) within =
        let above : r ≤ 25 * unit + 281474976710 = ground arith in
        let below : 25 * unit - 281474976710 ≤ r = ground arith in
        let most = mul-le-mul_left d above in
        let least = mul-le-mul_left d below in
        (omega (arith, high, least, h), omega (arith, low, most, h))
