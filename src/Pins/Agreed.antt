-- ===== src/Pins/Agreed.antt =====
-- What each check of fpga/ulx3s/check_pins.py shows of the constraints.
use koti.Base.{
  ◌⊎◌, ◌*◌, ◌^◌, ◌<◌, ℕ, ◌≡◌, ◌≢◌, refl, ap, ◌∙◌, Option, none, some, Bool, true, false, not, List,
  [], ◌∷◌, ◌++◌, All, if◌then◌else◌, Bool-cases, Option-cases, inl, inr,
}
use koti.Base.Text.{Text, codes, text_eq}
use koti.Base.Equal.{text_eq-≡}
use koti.Base.Empty.{append-nil_both, unless-nil, All-map}
use koti.Config.Parse.{get}
use koti.Pins.Clock.{far, is_far, read_decimal}
use koti.Pins.Near.{is_far-near}
use koti.Pins.Verdict.{
  is_one_of, is_located, locate_errors, stale_errors, differs_from, site_errors, wrong_clock,
  shared_errors, clock_errors, frequency_errors,
}

pub not-true : (b : Bool) → not b ≡ true → b ≡ false
not-true true e = absurd (cc)
not-true false e = refl

pub locate_errors-nil :
    (located : List (Text × Text)) (bits : List Text)
    → locate_errors located bits ≡ []
    → All (λ bit. is_located bit located ≡ true) bits
unfolding locate_errors
locate_errors-nil located [] e = tt
locate_errors-nil located (bit ∷ bits) e =
    let (a, b) = append-nil_both _ _ e in
    (unless-nil (is_located bit located) _ [] a, locate_errors-nil located bits b)

pub stale_errors-nil :
    (ports : List Text) (located : List (Text × Text))
    → stale_errors ports located ≡ []
    → All (λ (l : Text × Text). is_one_of l.0 ports ≡ true) located
unfolding stale_errors
stale_errors-nil ports [] e = tt
stale_errors-nil ports ((name, site) ∷ located) e =
    let (a, b) = append-nil_both _ _ e in
    (unless-nil (is_one_of name ports) _ [] a, stale_errors-nil ports located b)

-- The site is the one that the table has for the name, if it has one.
abbrev pub HasSite : List (Text × Text) → Text × Text → Type 0
HasSite expected l = (want : Text) → get expected l.0 ≡ some want → l.1 ≡ want

differs_from-HasSite :
    (o : Option Text) (site want : Text) → differs_from o site ≡ false → o ≡ some want → site ≡ want
unfolding differs_from
differs_from-HasSite none site want e h = absurd (cc)
differs_from-HasSite (some w) site want e h = elim (Bool-cases (text_eq w site)) [
  | inl same ↦ let s = text_eq-≡ w site same in cc
  | inr other ↦
      absurd (let no : differs_from (some w) site ≡ true = rw (other, differs_from) refl in cc)
]

pub site_errors-nil :
    (expected located : List (Text × Text))
    → site_errors expected located ≡ []
    → All (HasSite expected) located
unfolding site_errors
site_errors-nil expected [] e = tt
site_errors-nil expected ((name, site) ∷ located) e =
    let (a, b) = append-nil_both _ _ e in
    let test = not-true _ (unless-nil (not (differs_from (get expected name) site)) _ [] a) in
    (
      λ want. differs_from-HasSite (get expected name) site want test,
      site_errors-nil expected located b,
    )

-- No two entries have one site.
abbrev pub Distinct : List (Text × Text) → Type 0
Distinct [] = Unit
Distinct (l ∷ located) =
    All (λ (k : Text × Text). text_eq l.1 k.1 ≡ false) located × Distinct located

unseen-cons :
    (site other : Text) (seen : List Text)
    → is_one_of other (site ∷ seen) ≡ false
    → (text_eq site other ≡ false) × (is_one_of other seen ≡ false)
unfolding is_one_of
unseen-cons site other seen e = elim (Bool-cases (text_eq site other)) [
  | inl same ↦
      absurd (let no : is_one_of other (site ∷ seen) ≡ true = rw (same, is_one_of) refl in cc)
  | inr differ ↦ (differ, rw (differ, is_one_of) at e)
]

-- The loop has met none of the sites, and they differ.
pub shared_errors-nil :
    (seen : List Text) (located : List (Text × Text))
    → shared_errors seen located ≡ []
    → All (λ (l : Text × Text). is_one_of l.1 seen ≡ false) located × Distinct located
unfolding shared_errors
shared_errors-nil seen [] e = (tt, tt)
shared_errors-nil seen ((name, site) ∷ located) e =
    let (a, b) = append-nil_both _ _ e in
    let new = not-true _ (unless-nil (not (is_one_of site seen)) _ [] a) in
    let (unseen, distinct) = shared_errors-nil (site ∷ seen) located b in
    (
      (new, All-map _ _ located (λ l h. (unseen-cons site l.1 seen h).1) unseen),
      (All-map _ _ located (λ l h. (unseen-cons site l.1 seen h).0) unseen, distinct),
    )

-- A frequency that is set for the clock is written in digits and less than 0.001 from 25.
abbrev pub Near : Text × Text → Type 0
Near f =
    (text_eq f.0 (codes "clk_25mhz") ≡ false)
    ⊎ ((n : ℕ) × (k : ℕ) × (read_decimal false false 0 0 f.1 ≡ some (n, k))
        × (24999 * 10 ^ k < 1000 * n)
        × (1000 * n < 25001 * 10 ^ k))

far-Near : (port mhz : Text) → far mhz ≡ some false → Near (port, mhz)
unfolding far
far-Near port mhz e = elim (Option-cases (read_decimal false false 0 0 mhz)) [
  | inl n ↦ absurd (let out = rw (n, far) at e in cc)
  | inr ((n, k), r) ↦
      let test : some (is_far n k) ≡ some false = rw (r, far) at e in
      let (low, high) = is_far-near n k (cc) in inr (n, k, r, low, high)
]

clock_errors-nil : (freqs : List (Text × Text)) → clock_errors freqs ≡ some [] → All Near freqs
unfolding clock_errors
clock_errors-nil [] e = tt
clock_errors-nil ((port, mhz) ∷ freqs) e = elim (Bool-cases (text_eq port (codes "clk_25mhz"))) [
  | inr other ↦ (inl other, clock_errors-nil freqs (rw (other, clock_errors) at e))
  | inl clock ↦ elim (Option-cases (far mhz)) [
    | inl n ↦ absurd (let out = rw (clock, n, clock_errors) at e in cc)
    | inr (off, f) ↦ elim (Option-cases (clock_errors freqs)) [
      | inl n ↦ absurd (let out = rw (clock, f, n, clock_errors) at e in cc)
      | inr (es, r) ↦
          let out : some ((if not off then [] else wrong_clock mhz ∷ []) ++ es) ≡ some [] =
            rw (clock, f, r, clock_errors) at e in
          let silent : (if not off then [] else wrong_clock mhz ∷ []) ++ es ≡ [] = cc in
          let (a, b) = append-nil_both _ es silent in
          let near = not-true off (unless-nil (not off) _ [] a) in
          (far-Near port mhz (f ∙ ap some near), clock_errors-nil freqs (r ∙ ap some b))
    ]
  ]
]

pub frequency_errors-nil :
    (freqs : List (Text × Text)) → frequency_errors freqs ≡ some [] → (freqs ≢ []) × All Near freqs
unfolding frequency_errors
frequency_errors-nil [] e = absurd (cc)
frequency_errors-nil (f ∷ freqs) e = (λ n. absurd (cc), clock_errors-nil (f ∷ freqs) e)
