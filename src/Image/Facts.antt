-- ===== src/Image/Facts.antt =====
-- What sw/linux/check_rootfs.py and sw/linux/check_initramfs.py read of a binary, and what they let pass.
use koti.Base.{
  ℕ, zero, suc, ◌-◌, ◌/◌, ◌%◌, ◌≤◌, ◌≡◌, refl, ap, ◌∙◌, arith, ◌==◌, ltb, ◌↔◌, List, [], ◌∷◌,
  length, take, get_elem?, Bool-cases, inl, inr, take-drop-take, take-take, length-take,
  Option-cases,
}
use Prim.Native.Nat.{min}
use koti.Base.Empty.{append-nil_both, unless-nil}
use koti.Image.Elf.{Facts, unpack, elf_facts_bytes, elf_facts, describe_flags, elf_problems}

get_elem?-take {ℓ} :
    {A : Type ℓ} (n i : ℕ) (xs : List A) → suc i ≤ n → get_elem? (take n xs) i ≡ get_elem? xs i
get_elem?-take zero i xs h = absurd (omega arith)
get_elem?-take (suc n) i [] h = refl
get_elem?-take (suc n) zero (x ∷ xs) h = refl
get_elem?-take (suc n) (suc i) (x ∷ xs) h = get_elem?-take n i xs (omega arith)

-- The numbers at their places are among the first 64 bytes.
unpack-take : (file : List ℕ) → unpack (take 64 file) ≡ unpack file
unfolding unpack
unpack-take file =
    let at : get_elem? (take 64 file) 4 ≡ get_elem? file 4 =
      get_elem?-take 64 4 file (omega arith) in
    let machine = take-drop-take 18 2 64 file (omega arith) in
    elim (Option-cases (get_elem? file 4)) [
      | inl e ↦ rw (at, e) refl
      | inr (c, e) ↦ elim (Bool-cases (c == 1)) [
        | inl one ↦ rw (at, e, one, machine, take-drop-take 36 4 64 file (omega arith)) refl
        | inr other ↦ rw (at, e, other, machine, take-drop-take 48 4 64 file (omega arith)) refl
      ]
    ]

ltb-min : (n : ℕ) → ltb (min 64 n) 52 ≡ ltb n 52
ltb-min n = ground arith

-- The program that reads the first 64 bytes of a file and the one that reads all of it find the same.
pub elf_facts-elf_facts_bytes : (file : List ℕ) → elf_facts file ≡ elf_facts_bytes file
unfolding elf_facts elf_facts_bytes
elf_facts-elf_facts_bytes file =
    let long : ltb (length (take 64 file)) 52 ≡ ltb (length file) 52 =
      ap (λ (n : ℕ). ltb n 52) (length-take 64 file) ∙ ltb-min (length file) in
    rw (long, take-take 4 64 file (omega arith), unpack-take file) refl

-- A binary passes exactly where it is of the 32-bit class, for RISC-V, and asks for no extension.
pub elf_problems-nil :
    (f : Facts) → (elf_problems f ≡ []) ↔ ((f.ei_class ≡ 1) × (f.machine ≡ 243) × (f.flags ≡ 0))
unfolding elf_problems
elf_problems-nil f = (
  λ e.
      (let (c, rest) = append-nil_both _ _ e in
        let (m, g) = append-nil_both _ _ rest in
        let one = unless-nil (f.ei_class == 1) _ _ c in
        let riscv = unless-nil (f.machine == 243) _ _ m in
        let none_set = unless-nil (f.flags == 0) _ _ g in
        (ground arith, ground arith, ground arith)),
  λ (c, m, g). rw (c, m, g) refl,
)

-- The text for a number of flags is empty exactly where no flag is set.
pub describe_flags-nil : (flags : ℕ) → (describe_flags flags ≡ []) ↔ (flags ≡ 0)
unfolding describe_flags
describe_flags-nil flags = (
  λ e.
      (let (a, rest) = append-nil_both _ _ e in
        let (b, rest) = append-nil_both _ _ rest in
        let (c, d) = append-nil_both _ _ rest in
        let bit0 = unless-nil (flags % 2 == 0) _ _ a in
        let bit1 = unless-nil (flags / 2 % 2 == 0) _ _ b in
        let bit2 = unless-nil (flags / 4 % 2 == 0) _ _ c in
        let left = unless-nil (flags - flags % 8 == 0) _ _ d in ground arith),
  λ z. rw z refl,
)
