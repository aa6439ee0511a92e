-- ===== src/Pins/Passes.antt =====
-- What fpga/ulx3s/check_pins.py shows of a constraint file that it passes.
use koti.Base.{
  ℕ, suc, ◌≡◌, ◌≢◌, refl, ap, ◌∙◌, arith, Option, some, Bool, true, List, [], ◌∷◌, All,
  Option-cases, inl, inr,
}
use koti.Base.Text.{Text}
use koti.Base.Empty.{append-nil_both}
use koti.Pins.Table.{expected_sites}
use koti.Pins.Scan.{find_all, freq_here}
use koti.Pins.Ports.{module_ports}
use koti.Pins.Verdict.{
  PinError, parse_locates, is_one_of, is_located, frequency_errors, Files, error_code, check_texts,
  check_pins,
}
use koti.Pins.Agreed.{
  HasSite, Distinct, Near, locate_errors-nil, stale_errors-nil, site_errors-nil, shared_errors-nil,
  frequency_errors-nil,
}

-- The two texts fit: every port bit is placed, every placed name is a port bit, at the board's site, no
-- site is taken twice, and a frequency is set.
abbrev pub Fits : Text → Text → Type 0
Fits top lpf =
    (ports : List Text) × (module_ports top ≡ some ports)
    × All (λ bit. is_located bit (parse_locates lpf) ≡ true) ports
    × All (λ (l : Text × Text). is_one_of l.0 ports ≡ true) (parse_locates lpf)
    × All (HasSite expected_sites) (parse_locates lpf)
    × Distinct (parse_locates lpf)
    × (find_all freq_here 0 true lpf ≢ [])
    × All Near (find_all freq_here 0 true lpf)

nonzero_code : (n : ℕ) → some (suc n) ≢ some 0
nonzero_code n e = let no : suc n ≡ 0 = cc in omega arith

error_code-nil : (es : List PinError) → some (error_code es) ≡ some 0 → es ≡ []
unfolding error_code
error_code-nil [] e = refl
error_code-nil (x ∷ es) e = absurd (nonzero_code 0 e)

check_texts-Fits :
    (top lpf : Text) (console : Option Text) → check_texts top lpf console ≡ some 0 → Fits top lpf
unfolding check_texts
check_texts-Fits top lpf console e = elim (Option-cases (module_ports top)) [
  | inl n ↦ absurd (let out = rw (n, check_texts) at e in cc)
  | inr (ports, p) ↦ elim (Option-cases (frequency_errors (find_all freq_here 0 true lpf))) [
    | inl n ↦ absurd (let out = rw (p, n, check_texts) at e in cc)
    | inr (clock, c) ↦
        let silent = error_code-nil _ (rw (p, c, check_texts) at e) in
        let (placed, rest) = append-nil_both _ _ silent in
        let (real, rest) = append-nil_both _ _ rest in
        let (sites, rest) = append-nil_both _ _ rest in
        let (shared, rest) = append-nil_both _ _ rest in
        let (on_time, rest) = append-nil_both clock _ rest in
        let (has_one, near) = frequency_errors-nil _ (c ∙ ap some on_time) in
        (
          ports,
          p,
          locate_errors-nil (parse_locates lpf) ports placed,
          stale_errors-nil ports (parse_locates lpf) real,
          site_errors-nil expected_sites (parse_locates lpf) sites,
          (shared_errors-nil [] (parse_locates lpf) shared).1,
          has_one,
          near,
        )
  ]
]

-- Where the check returns 0, both files exist; every bit of every port has a site and every site is of
-- such a bit; the sites are those of the board's table, where that names the bit, and no two bits
-- have one site; some frequency is set, and each one for the clock is less than 0.001 MHz from 25 MHz.
pub check_pins-Fits :
    (files : Files)
    → check_pins files ≡ some 0
    → (top : Text) × (lpf : Text) × (files.top ≡ some top) × (files.lpf ≡ some lpf) × Fits top lpf
unfolding check_pins
check_pins-Fits files e = elim (Option-cases files.top) [
  | inl n ↦ absurd (nonzero_code 1 (rw (n, check_pins) at e))
  | inr (top, t) ↦ elim (Option-cases files.lpf) [
    | inl n ↦ absurd (nonzero_code 1 (rw (t, n, check_pins) at e))
    | inr (lpf, l) ↦
        (top, lpf, t, l, check_texts-Fits top lpf files.console (rw (t, l, check_pins) at e))
  ]
]
