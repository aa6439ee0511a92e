-- ===== src/Rvdis/Extend.antt =====
-- Sign extension in tools/rvdis.py: `_sext` reads a field in two's complement.
use koti.Base.{ℕ, suc, ◌-◌, ◌*◌, ◌%◌, ◌^◌, ◌<◌, ◌≡◌, arith, ltb, if◌then◌else◌}
use koti.Base.Int.{ℤ, pos, negsuc, mask}
use koti.Base.Bits.{xor_top}
use koti.Rvdis.Word.{sext}
use native.Mathlib.Nat.{pow-suc, mod-eq_of_lt}

-- `z` fits `k + 1` bits in two's complement: it is at least -(2 ^ k) and below 2 ^ k.
abbrev pub Fits : ℕ → ℤ → Type 0
Fits k (pos n) = n < 2 ^ k
Fits k (negsuc n) = n < 2 ^ k

pub sext-eq :
    (k v : ℕ)
    → v < 2 ^ suc k
    → sext v (suc k) ≡ (if ltb v (2 ^ k) then pos v else negsuc (2 ^ suc k - v - 1))
unfolding sext
sext-eq k v h =
    let exponent : suc k - 1 ≡ k = omega arith in
    let sign : 1 * 2 ^ (suc k - 1) ≡ 2 ^ k = rw exponent (omega arith) in
    rw sign (ground (arith, xor_top k v h, pow-suc 2 k))

-- Extending the two's complement of a number that fits gives the number back.
pub sext-mask : (k : ℕ) (z : ℤ) → Fits k z → sext (mask z (2 ^ suc k)) (suc k) ≡ z
unfolding mask
sext-mask k (pos n) h =
    let kept : n % 2 ^ suc k ≡ n = mod-eq_of_lt (omega (arith, pow-suc 2 k)) in
    rw kept (ground (arith, pow-suc 2 k, sext-eq k n))
sext-mask k (negsuc n) h =
    let kept : n % 2 ^ suc k ≡ n = mod-eq_of_lt (omega (arith, pow-suc 2 k)) in
    rw kept (ground (arith, pow-suc 2 k, sext-eq k (2 ^ suc k - 1 - n)))

-- `_sext` is the signed reading of its field: the result fits, and has the field's low bits.
pub sext_lem :
    (k v : ℕ) → v < 2 ^ suc k → Fits k (sext v (suc k)) × (mask (sext v (suc k)) (2 ^ suc k) ≡ v)
unfolding mask
sext_lem k v h = rw (sext-eq k v h) (ground (arith, pow-suc 2 k, kept v, kept (2 ^ suc k - v - 1)))
  where
    kept : (n : ℕ) → n < 2 ^ suc k → n % 2 ^ suc k ≡ n
    kept n fits = mod-eq_of_lt fits
