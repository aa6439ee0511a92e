-- ===== src/Base/Equal.antt =====
-- The test for equal texts decides their equality.
use mathlib.Core.Path.{◌≡◌, refl}
use mathlib.Core.Logic.{inl, inr}
use mathlib.Core.Bool.{true, false}
use mathlib.Core.List.{[], ◌∷◌}
use native.Mathlib.Omega.{arith}
use koti.Base.Tests.{◌==◌, Bool-cases}
use koti.Base.Text.{Text, text_eq}

pub text_eq-≡ : (s t : Text) → text_eq s t ≡ true → s ≡ t
unfolding text_eq
text_eq-≡ [] [] e = refl
text_eq-≡ [] (d ∷ t) e = absurd (cc)
text_eq-≡ (c ∷ s) [] e = absurd (cc)
text_eq-≡ (c ∷ s) (d ∷ t) e = elim (Bool-cases (c == d)) [
  | inl same ↦
      let cd : c ≡ d = ground arith in
      let rest : text_eq s t ≡ true =
        (let both : text_eq (c ∷ s) (d ∷ t) ≡ text_eq s t = rw (same, text_eq) refl in cc) in
      rw (cd, text_eq-≡ s t rest) refl
  | inr other ↦
      absurd (let nothing : text_eq (c ∷ s) (d ∷ t) ≡ false = rw (other, text_eq) refl in cc)
]

pub text_eq_refl : (s : Text) → text_eq s s ≡ true
unfolding text_eq
text_eq_refl [] = refl
text_eq_refl (c ∷ s) =
    let same : (c == c) ≡ true = ground arith in rw (same, text_eq) (text_eq_refl s)
