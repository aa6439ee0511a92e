-- ===== src/Config/Passes.antt =====
-- sw/linux/check_config.py passes a configuration exactly where its lines meet every requirement.
use koti.Base.{◌≡◌, Option, none, some, Bool, true, false, ◌||◌}
use koti.Base.Text.{Text}
use koti.Config.Verdict.{has_value, is_off}
use koti.Config.Meets.{Meets}

-- The round's test on its four inputs.
judge : Bool → Bool → Bool → Option Text → Text → Bool
judge false optional off v want = optional
judge true optional off v want = elim (off || optional) [
  | true ↦ is_off v
  | false ↦ has_value v want
]

-- The requirement on the same inputs.
abbrev Wanted : Bool → Bool → Bool → Option Text → Text → Type 0
Wanted mentioned optional off v want = elim optional [
  | true ↦ v ≡ none
  | false ↦ elim off [ true ↦ (v ≡ none) × (mentioned ≡ true) | false ↦ v ≡ some want ]
]
