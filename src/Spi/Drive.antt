-- ===== src/Spi/Drive.antt =====
-- The other side of the bus of test/spimem.py: a controller that clocks a transaction out and in.
use koti.Base.{
  ℕ, zero, suc, ◌+◌, ◌*◌, ◌/◌, ◌%◌, ◌^◌, ◌<◌, ◌≡◌, refl, ap, sym, ◌∙◌, arith, List, [], ◌∷◌, ◌++◌,
}
use koti.Base.Bits.{◌<<◌, ◌>>◌, low_bits, bit_or, or_add}
use koti.Spi.State.{SpiMem}
use koti.Spi.Edges.{shift, on_rise, on_fall}
use native.Mathlib.Nat.{
  pow-suc, div-one, div-div-eq-div-mul, div-le_self, div-add-mod', mod-eq_of_lt, mod-lt, mod-mod,
  div-eq_of_lt, mul_assoc,
}

-- One clock: the rising edge with the lines at `io`, then the falling edge.
unfoldable pub clock : SpiMem → ℕ → SpiMem
clock s io = on_fall (on_rise s io)

unfoldable pub drive : List ℕ → SpiMem → SpiMem
drive [] s = s
drive (io ∷ ios) s = drive ios (clock s io)

-- `n` groups of `k` bits of `v`, the highest first.
unfoldable pub groups : ℕ → ℕ → ℕ → List ℕ
groups k zero v = []
groups k (suc n) v = low_bits (v >> (k * n)) k ∷ groups k n v

unfoldable pub all_groups : ℕ → ℕ → List ℕ → List ℕ
all_groups k n [] = []
all_groups k n (b ∷ bs) = groups k n b ++ all_groups k n bs

-- A shift register of `w` bits.
unfoldable pub shift_in : ℕ → ℕ → ℕ → List ℕ → ℕ
shift_in k w sh [] = sh
shift_in k w sh (io ∷ ios) = shift_in k w (shift k w sh io) ios

pub drive-append : (xs ys : List ℕ) (s : SpiMem) → drive (xs ++ ys) s ≡ drive ys (drive xs s)
unfolding drive
drive-append [] ys s = refl
drive-append (x ∷ xs) ys s = drive-append xs ys (clock s x)

shift-sum : (k w sh io : ℕ) → io < 2 ^ k → shift k w sh io ≡ (sh * 2 ^ k + io) % 2 ^ w
unfolding shift
shift-sum k w sh io h =
    let sum : bit_or (sh * 2 ^ k) io ≡ sh * 2 ^ k + io = or_add k sh (sh * 2 ^ k) io refl h in
    ap (λ (x : ℕ). x % 2 ^ w) sum

two_pow_pos : (k : ℕ) → 0 < 2 ^ k
two_pow_pos zero = omega arith
two_pow_pos (suc k) = omega (arith, two_pow_pos k, pow-suc 2 k)

two_pow_add : (m k : ℕ) → 2 ^ (m + k) ≡ 2 ^ m * 2 ^ k
two_pow_add m zero = let e : m + 0 ≡ m = omega arith in rw e (omega arith)
two_pow_add m (suc k) =
    let e : m + suc k ≡ suc (m + k) = omega arith in
    rw e (
      pow-suc 2 (m + k)
      ∙ ap (λ (t : ℕ). t * 2) (two_pow_add m k)
      ∙ mul_assoc (2 ^ m) (2 ^ k) 2
      ∙ ap (λ (t : ℕ). 2 ^ m * t) (sym (pow-suc 2 k)))

-- Shifting in the last `n` groups of `v`, the others being there.
shift_in-rest : (k w n v : ℕ) → v < 2 ^ w → shift_in k w (v >> (k * n)) (groups k n v) ≡ v
unfolding shift_in groups
shift_in-rest k w zero v h = let e : k * 0 ≡ 0 = omega arith in rw e (div-one v)
shift_in-rest k w (suc n) v h =
    let q = v >> (k * n) in
    let e : k * suc n ≡ k * n + k = omega arith in
    let high : v >> (k * suc n) ≡ q / 2 ^ k =
      rw (e, two_pow_add (k * n) k) (sym (div-div-eq-div-mul v (2 ^ (k * n)) (2 ^ k))) in
    let small : q < 2 ^ w = omega (arith, div-le_self v (2 ^ (k * n))) in
    let next : shift k w (q / 2 ^ k) (q % 2 ^ k) ≡ q =
      shift-sum k w (q / 2 ^ k) (q % 2 ^ k) (mod-lt q (two_pow_pos k))
      ∙ ap (λ (t : ℕ). t % 2 ^ w) (div-add-mod' q (2 ^ k))
      ∙ mod-eq_of_lt small in
    ap (λ (t : ℕ). shift_in k w t (groups k (suc n) v)) high
    ∙ ap (λ (t : ℕ). shift_in k w t (groups k n v)) next
    ∙ shift_in-rest k w n v h

-- A value that fits comes out of the register as it went onto the lines.
pub shift_in-groups :
    (k w n v : ℕ) → v < 2 ^ w → v < 2 ^ (k * n) → shift_in k w 0 (groups k n v) ≡ v
shift_in-groups k w n v fits short =
    let empty : v >> (k * n) ≡ 0 = div-eq_of_lt short in
    ap (λ (t : ℕ). shift_in k w t (groups k n v)) (sym empty) ∙ shift_in-rest k w n v fits

-- The same with the mask that a serial phase puts on the lines.
unfoldable pub bits_in : ℕ → ℕ → List ℕ → ℕ
bits_in w sh [] = sh
bits_in w sh (io ∷ ios) = bits_in w (shift 1 w sh (low_bits io 1)) ios

bits_in-groups : (w n sh v : ℕ) → bits_in w sh (groups 1 n v) ≡ shift_in 1 w sh (groups 1 n v)
unfolding bits_in shift_in groups
bits_in-groups w zero sh v = refl
bits_in-groups w (suc n) sh v =
    let io = low_bits (v >> (1 * n)) 1 in
    ap (λ (t : ℕ). bits_in w (shift 1 w sh t) (groups 1 n v)) (mod-mod (v >> (1 * n)) 2)
    ∙ bits_in-groups w n (shift 1 w sh io) v

pub bits_in_all : (n v : ℕ) → v < 2 ^ n → bits_in n 0 (groups 1 n v) ≡ v
bits_in_all n v h =
    let e : 1 * n ≡ n = omega arith in bits_in-groups n n 0 v ∙ shift_in-groups 1 n n v h (rw e h)

-- What the controller samples of a bit that the device puts on the second line.
unfoldable pub sampled : List ℕ → List ℕ
sampled [] = []
sampled (x ∷ xs) = low_bits ((x << 1) >> 1) 1 ∷ sampled xs

bits_in-sampled :
    (w n sh v : ℕ) → bits_in w sh (sampled (groups 1 n v)) ≡ bits_in w sh (groups 1 n v)
unfolding bits_in sampled groups
bits_in-sampled w zero sh v = refl
bits_in-sampled w (suc n) sh v =
    let y = v >> (1 * n) in
    let line : low_bits (low_bits ((low_bits y 1 << 1) >> 1) 1) 1 ≡ low_bits (low_bits y 1) 1 =
      omega arith in
    ap (λ (t : ℕ). bits_in w (shift 1 w sh t) (sampled (groups 1 n v))) line
    ∙ bits_in-sampled w n (shift 1 w sh (low_bits (low_bits y 1) 1)) v

pub bits_in-sampled_all : (n v : ℕ) → v < 2 ^ n → bits_in n 0 (sampled (groups 1 n v)) ≡ v
bits_in-sampled_all n v h = bits_in-sampled n n 0 v ∙ bits_in_all n v h
