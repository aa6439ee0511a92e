-- ===== src/Card/Compared.antt =====
-- The check that tools/sdkernel.py makes of what it read back.
use koti.Base.{
  ℕ, suc, ◌<◌, ◌≤◌, ◌≡◌, ◌≢◌, refl, arith, none, some, true, false, ◌==◌, ◌>>=◌, List, [], ◌∷◌,
  length, take, get_elem?, ◌⊎◌, inl, inr, Bool-cases,
}
use koti.Card.Write.{bytes_eq, first_difference, verified, exit_mismatch, exception, compare_back}

pub bytes_eq-≡ : (xs ys : List ℕ) → bytes_eq xs ys ≡ true → xs ≡ ys
unfolding bytes_eq
bytes_eq-≡ [] [] e = refl
bytes_eq-≡ [] (y ∷ ys) e = absurd (cc)
bytes_eq-≡ (x ∷ xs) [] e = absurd (cc)
bytes_eq-≡ (x ∷ xs) (y ∷ ys) e = elim (Bool-cases (x == y)) [
  | inl same ↦
      let xy : x ≡ y = ground arith in
      let rest : bytes_eq xs ys ≡ true = rw (same, bytes_eq) at e in
      rw (xy, bytes_eq-≡ xs ys rest) refl
  | inr other ↦ absurd (let e' : false ≡ true = rw (other, bytes_eq) at e in cc)
]

pub bytes_eq_refl : (xs : List ℕ) → bytes_eq xs xs ≡ true
unfolding bytes_eq
bytes_eq_refl [] = refl
bytes_eq_refl (x ∷ xs) =
    let same : (x == x) ≡ true = ground arith in rw (same, bytes_eq) (bytes_eq_refl xs)

-- The two lists agree before `i` and not at `i`.
pub record IsFirstDifference (xs ys : List ℕ) (i : ℕ) : Type 0 where
  pub in_both : i < length xs
  pub agree : take i xs ≡ take i ys
  pub differ : get_elem? xs i ≢ get_elem? ys i

-- `xs` is shorter than `ys` and agrees with it as far as it goes.
abbrev pub IsProperPrefix : List ℕ → List ℕ → Type 0
IsProperPrefix xs ys = (length xs < length ys) × (take (length xs) ys ≡ xs)

IsFirstDifference-cons :
    (x y : ℕ) (xs ys : List ℕ) (i : ℕ)
    → x ≡ y
    → IsFirstDifference xs ys i
    → IsFirstDifference (x ∷ xs) (y ∷ ys) (suc i)
IsFirstDifference-cons x y xs ys i e d = record {
  in_both = omega (arith, d.in_both);
  agree = rw (e, d.agree) refl;
  differ = d.differ;
}

-- The three ways in which two lists compare, the first not longer than the second.
abbrev Compared : List ℕ → List ℕ → Type 0
Compared xs ys =
    (xs ≡ ys)
    ⊎ (((i : ℕ) × IsFirstDifference xs ys i
          × (first_difference xs ys ≡ some i)
          × (bytes_eq xs ys ≡ false))
        ⊎ (IsProperPrefix xs ys × (first_difference xs ys ≡ none) × (bytes_eq xs ys ≡ false)))

Compared-cons :
    (x y : ℕ) (xs ys : List ℕ) → (x == y) ≡ true → Compared xs ys → Compared (x ∷ xs) (y ∷ ys)
unfolding first_difference bytes_eq
Compared-cons x y xs ys same (inl e) = let xy : x ≡ y = ground arith in inl (rw (xy, e) refl)
Compared-cons x y xs ys same (inr (inl (i, d, at, other))) =
    let xy : x ≡ y = ground arith in
    inr (
      inl (
        suc i,
        IsFirstDifference-cons x y xs ys i xy d,
        rw (same, first_difference, at, ◌>>=◌) refl,
        rw (same, bytes_eq) other,
      ))
Compared-cons x y xs ys same (inr (inr (prefix, at, other))) =
    let xy : x ≡ y = ground arith in
    inr (
      inr (
        (omega (arith, prefix.0), rw (xy, prefix.1) refl),
        rw (same, first_difference, at, ◌>>=◌) refl,
        rw (same, bytes_eq) other,
      ))

pub first_difference_lem : (xs ys : List ℕ) → length xs ≤ length ys → Compared xs ys
unfolding first_difference bytes_eq
first_difference_lem [] [] h = inl refl
first_difference_lem [] (y ∷ ys) h = inr (inr ((omega arith, refl), refl, refl))
first_difference_lem (x ∷ xs) [] h = absurd (omega arith)
first_difference_lem (x ∷ xs) (y ∷ ys) h = elim (Bool-cases (x == y)) [
  | inl same ↦ Compared-cons x y xs ys same (first_difference_lem xs ys (omega arith))
  | inr other ↦ inr (
      inl (
        0,
        record {
          in_both = omega arith;
          agree = refl;
          differ = λ e. (let xy : x ≡ y = cc in ground arith);
        },
        rw (other, first_difference) refl,
        rw (other, bytes_eq) refl,
      ))
]

-- How a command ends once it has read `back` and wanted `wanted`, which `back` is no longer than: it
-- reports success exactly where they are equal, else the index of the first byte that differs; but
-- where the device gave fewer bytes and those agree, it ends in an exception that nothing catches.
pub compare_back_lem :
    {S : Type 0} (s : S) (back wanted : List ℕ)
    → length back ≤ length wanted
    → ((compare_back wanted (s, back) ≡ verified s) × (back ≡ wanted))
      ⊎ (((i : ℕ) × (compare_back wanted (s, back) ≡ exit_mismatch i)
            × IsFirstDifference back wanted i)
          ⊎ ((compare_back wanted (s, back) ≡ exception) × IsProperPrefix back wanted))
unfolding compare_back
compare_back_lem s back wanted h = elim (first_difference_lem back wanted h) [
  | inl same ↦ inl (rw same (rw (bytes_eq_refl wanted, compare_back) refl), same)
  | inr (inl (i, d, at, other)) ↦ inr (inl (i, rw (other, compare_back, at) refl, d))
  | inr (inr (prefix, at, other)) ↦ inr (inr (rw (other, compare_back, at) refl, prefix))
]
