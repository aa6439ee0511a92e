-- ===== src/Image/Bootable.antt =====
-- What sw/linux/check_initramfs.py shows of an archive that it passes.
use koti.Base.{
  ℕ, suc, ◌+◌, ◌≤◌, ◌≡◌, refl, ap, ◌∙◌, arith, Option, none, some, Bool, ltb, List, [], ◌∷◌, ◌++◌,
  length, take, All, Bool-cases, Option-cases, inl, inr,
}
use koti.Base.Text.{Text, text_eq}
use koti.Base.Equal.{text_eq-≡}
use koti.Base.Empty.{append-nil_both, unless-nil}
use koti.Cpio.Archive.{Member}
use koti.Image.Elf.{Facts, Reason, elf_facts_bytes, elf_problems}
use koti.Image.Problem.{
  Problem, File, Host, Provenance, missing, bad_elf, fat_sends, wrong_hash, no_provenance,
  not_in_cpio, differs,
}
use koti.Image.Members.{
  find_member, kind, regular, required_problems, on_each, binary_problems, reasons,
  overlay_problems,
}
use koti.Image.Sends.{sending, payload, fat_lines, echo_problems}
use koti.Image.Scripts.{split}
use koti.Image.Verdict.{gather, hash_problem, provenance_problems}
use koti.Image.Facts.{elf_problems-nil}

-- The three numbers that a binary must have.
abbrev pub Runs : Facts → Type 0
Runs f = (f.ei_class ≡ 1) × (f.machine ≡ 243) × (f.flags ≡ 0)

-- Every regular file that is a binary is one that the processor can run.
abbrev pub Executes : Member → Type 0
Executes m = (f : Facts) → kind m ≡ some regular → elf_facts_bytes m.body ≡ some f → Runs f

-- A file of the overlay stands in the archive byte for byte.
abbrev pub IsCopied : List Member → File → Type 0
IsCopied ms f = (m : Member) × (find_member f.rel ms ≡ some m) × (m.body ≡ f.bytes)

-- The payloads of the file's lines that send text of their own have, with six more for the end of the
-- line and the prompt, 64 characters at most. The program counts characters of the decoded text.
abbrev pub FitsQueue : File → Type 0
FitsQueue f =
    (src : Text)
    → sending f ≡ some src
    → All (λ line. (body : Text) → payload line ≡ some body → length body + 6 ≤ 64)
        (split b'\n' src)

-- A recorded hash is that of the file.
abbrev pub Recorded : Host → List ℕ → Type 0
Recorded host blob =
    (rec : Provenance) × (host.provenance ≡ some rec)
    × (rec.cpio_sha256 ≡ some (host.sha blob))
    × (rec.fragment_sha256 ≡ some (host.sha host.fragment))

abbrev pub IsThere : List Member → Text × Bool → Type 0
IsThere ms r = (m : Member) × (find_member r.0 ms ≡ some m)

pub on_each-nil {ℓ} :
    {A : Type ℓ} (f : A → Option (List Problem)) (xs : List A)
    → on_each f xs ≡ some []
    → All (λ x. f x ≡ some []) xs
unfolding on_each
on_each-nil f [] e = tt
on_each-nil f (x ∷ xs) e = elim (Option-cases (f x)) [
  | inl n ↦ absurd (let nothing : on_each f (x ∷ xs) ≡ none = rw (n, on_each) refl in cc)
  | inr (ps, p) ↦ elim (Option-cases (on_each f xs)) [
    | inl n ↦ absurd (let nothing : on_each f (x ∷ xs) ≡ none = rw (p, n, on_each) refl in cc)
    | inr (qs, q) ↦
        let both : on_each f (x ∷ xs) ≡ some (ps ++ qs) = rw (p, q, on_each) refl in
        let empty : ps ++ qs ≡ [] = cc in
        let (a, b) = append-nil_both ps qs empty in
        (p ∙ ap some a, on_each-nil f xs (q ∙ ap some b))
  ]
]

pub gather-nil {ℓ} :
    {A : Type ℓ} (f : A → List Problem) (xs : List A) → gather f xs ≡ [] → All (λ x. f x ≡ []) xs
unfolding gather
gather-nil f [] e = tt
gather-nil f (x ∷ xs) e =
    let (a, b) = append-nil_both (f x) (gather f xs) e in (a, gather-nil f xs b)

pub required_problems-IsThere :
    (ms : List Member) (r : Text × Bool) → required_problems ms r ≡ some [] → IsThere ms r
unfolding required_problems
required_problems-IsThere ms (name, must_exec) e = elim (Option-cases (find_member name ms)) [
  | inr found ↦ found
  | inl n ↦ absurd (
      let lost : required_problems ms (name, must_exec) ≡ some (missing name ∷ []) =
        rw (n, required_problems) refl in
      cc)
]

reasons-nil : (f : Facts) (name : Text) → reasons (some f) name ≡ [] → elf_problems f ≡ []
unfolding reasons
reasons-nil f name e = go (elf_problems f) refl
  where
    go : (rs : List Reason) → elf_problems f ≡ rs → elf_problems f ≡ []
    go [] p = p
    go (r ∷ rs) p =
        absurd (
          let bad : reasons (some f) name ≡ bad_elf name (r ∷ rs) ∷ [] = rw (p, reasons) refl in cc)

pub binary_problems-Executes : (m : Member) → binary_problems m ≡ some [] → Executes m
unfolding binary_problems
binary_problems-Executes m e f k elf =
    let said : binary_problems m ≡ some (reasons (some f) m.name) =
      rw (k, elf, binary_problems) refl in
    let silent : reasons (some f) m.name ≡ [] = cc in
    (elf_problems-nil f).0 (reasons-nil f m.name silent)

pub overlay_problems-IsCopied :
    (ms : List Member) (f : File) → overlay_problems ms f ≡ [] → IsCopied ms f
unfolding overlay_problems
overlay_problems-IsCopied ms f e = elim (Option-cases (find_member f.rel ms)) [
  | inl n ↦ absurd (
      let lost : overlay_problems ms f ≡ not_in_cpio f.rel ∷ [] = rw (n, overlay_problems) refl in
      cc)
  | inr (m, found) ↦
      let test =
        unless-nil (text_eq m.body f.bytes) (differs f.rel) []
          (rw (found, overlay_problems) at e) in
      (m, found, text_eq-≡ m.body f.bytes test)
]

fat_lines-nil :
    (n : ℕ) (lines : List Text)
    → fat_lines n lines ≡ []
    → All (λ line. (body : Text) → payload line ≡ some body → length body + 6 ≤ 64) lines
unfolding fat_lines
fat_lines-nil n [] e = tt
fat_lines-nil n (line ∷ lines) e = elim (Option-cases (payload line)) [
  | inl p ↦
      let rest = fat_lines-nil (suc n) lines (rw (p, fat_lines) at e) in
      (λ body q. absurd (cc), rest)
  | inr (text, p) ↦ elim (Bool-cases (ltb 64 (length text + 6))) [
    | inl fat ↦ absurd (
        let said : fat_lines n (line ∷ lines)
            ≡ (n, length text + 6, take 48 text) ∷ fat_lines (suc n) lines =
          rw (p, fat, fat_lines) refl in
        cc)
    | inr fits ↦
        let rest = fat_lines-nil (suc n) lines (rw (p, fits, fat_lines) at e) in
        (λ body q. (let same : text ≡ body = cc in rw (← same) (ground arith)), rest)
  ]
]

pub echo_problems-FitsQueue : (f : File) → echo_problems f ≡ [] → FitsQueue f
unfolding echo_problems
echo_problems-FitsQueue f e src s = fat_lines-nil 1 (split b'\n' src) (silent _ refl)
  where
    silent :
        (ls : List (ℕ × ℕ × Text))
        → fat_lines 1 (split b'\n' src) ≡ ls
        → fat_lines 1 (split b'\n' src) ≡ []
    silent [] p = p
    silent (l ∷ ls) p = absurd (
        let said : echo_problems f ≡ fat_sends f.rel (l ∷ ls) ∷ [] =
          rw (s, p, echo_problems) refl in
        cc)

hash_problem-nil :
    (o : Option Text) (actual what : Text) → hash_problem o actual what ≡ [] → o ≡ some actual
unfolding hash_problem
hash_problem-nil none actual what e = absurd (cc)
hash_problem-nil (some want) actual what e =
    ap some (text_eq-≡ want actual (unless-nil (text_eq want actual) (wrong_hash what) [] e))

pub provenance_problems-Recorded :
    (host : Host) (blob : List ℕ)
    → provenance_problems host blob host.provenance ≡ []
    → Recorded host blob
unfolding provenance_problems
provenance_problems-Recorded host blob e = elim (Option-cases host.provenance) [
  | inl n ↦ absurd (
      let said : provenance_problems host blob host.provenance ≡ no_provenance ∷ [] =
        rw (n, provenance_problems) refl in
      cc)
  | inr (rec, p) ↦
      let (a, b) = append-nil_both _ _ (rw (p, provenance_problems) at e) in
      (rec, p, hash_problem-nil rec.cpio_sha256 _ _ a, hash_problem-nil rec.fragment_sha256 _ _ b)
]
