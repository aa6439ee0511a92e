-- ===== src/Base/Bits.antt =====
-- Python's `|`, `^`, `>>` and `&` on non-negative integers. A mask of low ones is a remainder and a
-- shift is a power of two; `|` of disjoint fields and `^` with a single bit are shown to be sums.
use Prim.Native.Nat.{ℕ, zero, suc, ◌+◌, ◌-◌, ◌*◌, ◌/◌, ◌%◌, ◌^◌, ◌≤◌, ◌<◌, max}
use Prim.Native.Nat.{digits, differ, bit_or-bitwise, bit_xor-bitwise}
use mathlib.Core.Path.{◌≡◌, refl, ap, ◌∙◌}
use native.Mathlib.Nat.{pow-suc}
use native.Mathlib.Omega.{arith}
use koti.Base.Tests.{ltb, if◌then◌else◌}
pub use Prim.Native.Nat.{bit_or, bit_xor}

infixl 75 ◌<<◌ ◌>>◌
abbrev pub ◌<<◌ : ℕ → ℕ → ℕ
x << k = x * 2 ^ k

abbrev pub ◌>>◌ : ℕ → ℕ → ℕ
x >> k = x / 2 ^ k

-- `x & ((1 << k) - 1)`.
abbrev pub low_bits : ℕ → ℕ → ℕ
low_bits x k = x % 2 ^ k

-- One binary digit of an operation that keeps the second operand when the first has run out.
module _ (f : ℕ → ℕ → ℕ) where
  abbrev combine : ℕ → ℕ → ℕ → ℕ
  combine = digits (λ b. b) f

  combine_fuel : (m n a b : ℕ) → a ≤ m → a ≤ n → combine m a b ≡ combine n a b
  combine_fuel zero zero a b p q = refl
  combine_fuel zero (suc n) (suc a) b p q = absurd (omega arith)
  combine_fuel zero (suc n) zero b p q = refl
  combine_fuel (suc m) zero (suc a) b p q = absurd (omega arith)
  combine_fuel (suc m) zero zero b p q = refl
  combine_fuel (suc m) (suc n) zero b p q = refl
  combine_fuel (suc m) (suc n) (suc a) b p q =
      omega (arith, combine_fuel m n (suc a / 2) (b / 2) (omega arith) (omega arith))

  combine_step :
      (a b : ℕ)
      → combine (suc a) (suc a) b
        ≡ combine (suc a / 2) (suc a / 2) (b / 2) * 2 + f (suc a % 2) (b % 2)
  combine_step a b =
      omega (arith, combine_fuel a (suc a / 2) (suc a / 2) (b / 2) (omega arith) (omega arith))

pub or_step : (a b : ℕ) → bit_or a b ≡ bit_or (a / 2) (b / 2) * 2 + max (a % 2) (b % 2)
or_step zero b = omega (arith, bit_or-bitwise 0 b, bit_or-bitwise 0 (b / 2))
or_step (suc a) b =
    omega
      (arith, bit_or-bitwise (suc a) b, bit_or-bitwise (suc a / 2) (b / 2), combine_step max a b)

pub xor_step : (a b : ℕ) → bit_xor a b ≡ bit_xor (a / 2) (b / 2) * 2 + differ (a % 2) (b % 2)
xor_step zero b = omega (arith, bit_xor-bitwise 0 b, bit_xor-bitwise 0 (b / 2))
xor_step (suc a) b =
    omega (
      arith,
      bit_xor-bitwise (suc a) b,
      bit_xor-bitwise (suc a / 2) (b / 2),
      combine_step differ a b,
    )

or_zero_fuel : (n a : ℕ) → a ≤ n → bit_or a 0 ≡ a
or_zero_fuel n zero h = refl
or_zero_fuel zero (suc a) h = absurd (omega arith)
or_zero_fuel (suc n) (suc a) h =
    omega (arith, or_step (suc a) 0, or_zero_fuel n (suc a / 2) (omega arith))

two_pow-suc : (q k : ℕ) → q * 2 ^ suc k ≡ 2 * (q * 2 ^ k)
two_pow-suc q k = omega (arith, ap (λ (t : ℕ). q * t) (pow-suc 2 k))

or_shifted : (k q r : ℕ) → r < 2 ^ k → bit_or (q << k) r ≡ q * 2 ^ k + r
or_shifted zero q r h = ground (arith, or_zero_fuel q q)
or_shifted (suc k) q r h = ground (
  arith,
  two_pow-suc q k,
  pow-suc 2 k,
  or_step (q * 2 ^ suc k) r,
  or_shifted k q (r / 2) (omega (arith, pow-suc 2 k)),
)

-- `a | r` is a sum when the low `k` bits of `a` are clear and `r` fits in them.
pub or_add : (k q a r : ℕ) → a ≡ q * 2 ^ k → r < 2 ^ k → bit_or a r ≡ a + r
or_add k q a r e h = ground (arith, or_shifted k q r h)

differ-zero : (a : ℕ) → differ a 0 ≡ a
differ-zero zero = refl
differ-zero (suc a) = refl

-- `v ^ (1 << k)` flips bit `k`, the top one of a number of `k + 1` bits.
pub xor_top :
    (k v : ℕ) → v < 2 ^ suc k → bit_xor v (2 ^ k) ≡ (if ltb v (2 ^ k) then v + 2 ^ k else v - 2 ^ k)
xor_top zero zero h = refl
xor_top zero (suc zero) h = refl
xor_top zero (suc (suc v)) h = absurd (omega arith)
xor_top (suc k) v h = ground (
  arith,
  pow-suc 2 k,
  pow-suc 2 (suc k),
  xor_step v (2 ^ suc k),
  differ-zero (v % 2),
  xor_top k (v / 2) (omega (arith, pow-suc 2 (suc k))),
)

-- The same as a step of a chain of fields, the highest first: `x` is known to be `a` already.
pub or_next : (k q : ℕ) {x a r : ℕ} → x ≡ a → a ≡ q * 2 ^ k → r < 2 ^ k → bit_or x r ≡ a + r
or_next k q {x} {a} {r} known e h = ap (λ (t : ℕ). bit_or t r) known ∙ or_add k q a r e h
