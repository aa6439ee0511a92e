-- ===== src/Rootfs/Granted.antt =====
-- What the two loops of sw/linux/check_rootfs.py show of a configuration and of binaries.
use koti.Base.{
  ℕ, suc, ◌≡◌, ◌≢◌, refl, ap, Option, none, some, true, false, List, [], ◌∷◌, ◌++◌, All, get_elem?,
  subst, Bool-cases, Option-cases, inl, inr, ◌⊎◌,
}
use koti.Base.Text.{Text, codes, text_eq}
use koti.Base.Equal.{text_eq-≡}
use koti.Base.Empty.{append-nil_both, unless-nil}
use koti.Config.Parse.{Parsed, get, is_seen}
use koti.Image.Elf.{Facts, Reason, elf_facts, elf_problems}
use koti.Image.Facts.{elf_problems-nil}
use koti.Image.Bootable.{Runs}
use koti.Rootfs.Verdict.{
  Complaint, absent, meets, symbol_complaints, config_complaints, said_of, check_binaries, Disk,
}

-- The value that is wanted: none for "n?" and "n", and otherwise the one named.
abbrev pub HasWanted : Option Text → Text → Type 0
HasWanted v want = elim (text_eq want (codes "n?")) [
  | true ↦ v ≡ none
  | false ↦ elim (text_eq want (codes "n")) [ true ↦ v ≡ none | false ↦ v ≡ some want ]
]

-- A configuration grants a requirement: it mentions the symbol, except for "n?", with what is wanted.
abbrev pub Grants : Parsed → Text × Text → Type 0
Grants p (sym, want) =
    ((text_eq want (codes "n?") ≡ true) × (is_seen p.seen sym ≡ false))
    ⊎ ((is_seen p.seen sym ≡ true) × HasWanted (get p.values sym) want)

meets-HasWanted : (v : Option Text) (want : Text) → meets v want ≡ true → HasWanted v want
unfolding meets
meets-HasWanted none want e = elim (Bool-cases (text_eq want (codes "n?"))) [
  | inl o ↦ rw (o, HasWanted) refl
  | inr o ↦ elim (Bool-cases (text_eq want (codes "n"))) [
    | inl n ↦ rw (o, n, HasWanted) refl
    | inr n ↦ absurd (let no : meets none want ≡ false = rw (n, o, meets) refl in cc)
  ]
]
meets-HasWanted (some got) want e = elim (Bool-cases (text_eq want (codes "n?"))) [
  | inl o ↦ elim (Bool-cases (text_eq want (codes "n"))) [
    | inl n ↦ absurd (let no : meets (some got) want ≡ false = rw (n, meets) refl in cc)
    | inr n ↦ absurd (let no : meets (some got) want ≡ false = rw (n, o, meets) refl in cc)
  ]
  | inr o ↦ elim (Bool-cases (text_eq want (codes "n"))) [
    | inl n ↦ absurd (let no : meets (some got) want ≡ false = rw (n, meets) refl in cc)
    | inr n ↦ rw (o, n, HasWanted) (ap some (text_eq-≡ got want (rw (n, o, meets) at e)))
  ]
]

symbol_complaints-nil : (p : Parsed) (r : Text × Text) → symbol_complaints p r ≡ [] → Grants p r
unfolding symbol_complaints
symbol_complaints-nil p (sym, want) e = elim (Bool-cases (is_seen p.seen sym)) [
  | inl seen ↦
      let met =
        unless-nil (meets (get p.values sym) want) _ [] (rw (seen, symbol_complaints) at e) in
      inr (seen, meets-HasWanted (get p.values sym) want met)
  | inr unseen ↦ inl (
    unless-nil (text_eq want (codes "n?")) (absent sym) [] (rw (unseen, symbol_complaints) at e),
    unseen,
  )
]

pub config_complaints-nil :
    (p : Parsed) (rs : List (Text × Text)) → config_complaints p rs ≡ [] → All (Grants p) rs
unfolding config_complaints
config_complaints-nil p [] e = tt
config_complaints-nil p (r ∷ rs) e =
    let (a, b) = append-nil_both (symbol_complaints p r) (config_complaints p rs) e in
    (symbol_complaints-nil p r a, config_complaints-nil p rs b)

said_of-nil : (name : Text) (rs : List Reason) → said_of name rs ≡ [] → rs ≡ []
unfolding said_of
said_of-nil name [] e = refl
said_of-nil name (r ∷ rs) e = absurd (cc)

-- Every file that can be read as a binary is one that the processor can run.
abbrev pub AllRun : Disk → List Text → Type 0
AllRun disk = All (λ name.
    (blob : List ℕ) (f : Facts) → disk.bytes name ≡ some blob → elf_facts blob ≡ some f → Runs f)

-- One of the files at least is a binary.
abbrev pub HasBinary : Disk → List Text → Type 0
HasBinary disk names =
    (i : ℕ) × (name : Text) × (blob : List ℕ) × (f : Facts) × (get_elem? names i ≡ some name)
    × (disk.bytes name ≡ some blob)
    × (elf_facts blob ≡ some f)

pub check_binaries-AllRun :
    (disk : Disk) (names : List Text) (checked : ℕ) (bad : List Complaint)
    → check_binaries disk.bytes names ≡ some (checked, bad)
    → bad ≡ []
    → AllRun disk names × (checked ≢ 0 → HasBinary disk names)
unfolding check_binaries
check_binaries-AllRun disk [] checked bad e z = (tt, λ n. absurd (n (cc)))
check_binaries-AllRun disk (name ∷ names) checked bad e z = elim (Option-cases (disk.bytes name)) [
  | inl n ↦ absurd (
      let out : check_binaries disk.bytes (name ∷ names) ≡ none = rw (n, check_binaries) refl in cc)
  | inr (blob, d) ↦ elim (Option-cases (check_binaries disk.bytes names)) [
    | inl n ↦ absurd (
        let out : check_binaries disk.bytes (name ∷ names) ≡ none =
          rw (d, n, check_binaries) refl in
        cc)
    | inr ((k, more), r) ↦ elim (Option-cases (elf_facts blob)) [
      | inl n ↦
          let out : check_binaries disk.bytes (name ∷ names) ≡ some (k, more) =
            rw (d, r, n, check_binaries) refl in
          let (all, found) = check_binaries-AllRun disk names k more r (cc) in
          (
            (λ other f d2 e2. absurd (cc), all),
            λ ne.
                let (i, other, b, g, at, d2, e2) = found (λ k0. ne (cc)) in
                (suc i, other, b, g, at, d2, e2),
          )
      | inr (f, e1) ↦
          let out : check_binaries disk.bytes (name ∷ names)
              ≡ some (suc k, said_of name (elf_problems f) ++ more) =
            rw (d, r, e1, check_binaries) refl in
          let empty : said_of name (elf_problems f) ++ more ≡ [] = cc in
          let (said, none_more) = append-nil_both _ _ empty in
          let runs = (elf_problems-nil f).0 (said_of-nil name (elf_problems f) said) in
          let (all, found) = check_binaries-AllRun disk names k more r none_more in
          (
            (λ other g d2 e2. (let same : f ≡ g = cc in subst Runs same runs), all),
            λ ne. (0, name, blob, f, refl, d, e1),
          )
    ]
  ]
]
