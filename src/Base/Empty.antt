-- ===== src/Base/Empty.antt =====
-- When lists of complaints are empty.
use mathlib.Core.Path.{◌≡◌, refl}
use mathlib.Core.Bool.{Bool, true, false}
use mathlib.Core.List.{List, [], ◌∷◌, ◌++◌}
use koti.Base.Tests.{if◌then◌else◌}
use koti.Base.Lists.{All}

module _ {ℓ} {A : Type ℓ} where
  pub append-nil_both : (xs ys : List A) → xs ++ ys ≡ [] → (xs ≡ []) × (ys ≡ [])
  append-nil_both [] ys e = (refl, e)
  append-nil_both (x ∷ xs) ys e = absurd (cc)

  -- A complaint that is made unless a test passes.
  pub unless-nil : (b : Bool) (x : A) (xs : List A) → (if b then [] else x ∷ xs) ≡ [] → b ≡ true
  unless-nil true x xs e = refl
  unless-nil false x xs e = absurd (cc)

  pub All-map {κ μ} :
      (P : A → Type κ) (Q : A → Type μ) (xs : List A) → ((x : A) → P x → Q x) → All P xs → All Q xs
  All-map P Q [] f h = tt
  All-map P Q (x ∷ xs) f h = (f x h.0, All-map P Q xs f h.1)
