-- ===== src/Ktrace/Audit.antt =====
-- What `audit_straddle` of tools/ktrace.py returns on a whole image.
use koti.Base.{
  ℕ, zero, suc, ◌+◌, ◌*◌, ◌<◌, ◌≡◌, arith, none, some, ltb, ◌>>=◌, List, [], ◌∷◌, length, get_elem?,
  Bool-cases, inl, inr, refl, ◌∙◌, ap, ◌≤◌, Option-cases, subst,
}
use koti.Ktrace.Image.{Image}
use koti.Ktrace.Straddle.{
  Hit, IsHit, hit_at, audit_loop, audit_straddle, hit_at-Returns, hit_at-IsHit, IsHit-hit_at,
}

-- `hits` are the hits of the words from `off` on: each of them, and all of them.
pub record IsAudit (img : Image) (off : ℕ) (hits : List Hit) : Type 0 where
  pub sound :
      (i : ℕ) (h : Hit)
      → get_elem? hits i ≡ some h
      → (k : ℕ) × (off + 4 * k + 3 < length img.bytes) × IsHit img (off + 4 * k) h
  pub complete :
      (k : ℕ) (h : Hit)
      → off + 4 * k + 3 < length img.bytes
      → IsHit img (off + 4 * k) h
      → (i : ℕ) × (get_elem? hits i ≡ some h)

IsAudit-skip :
    (img : Image) (off : ℕ) (hits : List Hit)
    → hit_at img off ≡ some none
    → IsAudit img (off + 4) hits
    → IsAudit img off hits
IsAudit-skip img off hits miss rest = record { sound = sound; complete = complete }
  where
    sound :
        (i : ℕ) (h : Hit)
        → get_elem? hits i ≡ some h
        → (k : ℕ) × (off + 4 * k + 3 < length img.bytes) × IsHit img (off + 4 * k) h
    sound i h e =
        let (k, inside, hit) = rest.sound i h e in
        let at : off + 4 + 4 * k ≡ off + 4 * suc k = omega arith in
        (suc k, omega arith, subst (λ o. IsHit img o h) at hit)

    complete :
        (k : ℕ) (h : Hit)
        → off + 4 * k + 3 < length img.bytes
        → IsHit img (off + 4 * k) h
        → (i : ℕ) × (get_elem? hits i ≡ some h)
    complete zero h inside hit =
        let at : off + 4 * 0 ≡ off = omega arith in
        let found = IsHit-hit_at img off h (subst (λ o. IsHit img o h) at hit) in absurd (cc)
    complete (suc k) h inside hit =
        let at : off + 4 * suc k ≡ off + 4 + 4 * k = omega arith in
        rest.complete k h (omega arith) (subst (λ o. IsHit img o h) at hit)

IsAudit-cons :
    (img : Image) (off : ℕ) (x : Hit) (hits : List Hit)
    → off + 3 < length img.bytes
    → hit_at img off ≡ some (some x)
    → IsAudit img (off + 4) hits
    → IsAudit img off (x ∷ hits)
IsAudit-cons img off x hits inside first rest = record { sound = sound; complete = complete }
  where
    sound :
        (i : ℕ) (h : Hit)
        → get_elem? (x ∷ hits) i ≡ some h
        → (k : ℕ) × (off + 4 * k + 3 < length img.bytes) × IsHit img (off + 4 * k) h
    sound zero h e =
        let same : x ≡ h = cc in
        let at : off ≡ off + 4 * 0 = omega arith in
        (
          0,
          omega arith,
          subst (λ o. IsHit img o h) at (subst (IsHit img off) same (hit_at-IsHit img off x first)),
        )
    sound (suc i) h e =
        let (k, fits, hit) = rest.sound i h e in
        let at : off + 4 + 4 * k ≡ off + 4 * suc k = omega arith in
        (suc k, omega arith, subst (λ o. IsHit img o h) at hit)

    complete :
        (k : ℕ) (h : Hit)
        → off + 4 * k + 3 < length img.bytes
        → IsHit img (off + 4 * k) h
        → (i : ℕ) × (get_elem? (x ∷ hits) i ≡ some h)
    complete zero h fits hit =
        let at : off + 4 * 0 ≡ off = omega arith in
        let found = IsHit-hit_at img off h (subst (λ o. IsHit img o h) at hit) in (0, cc)
    complete (suc k) h fits hit =
        let at : off + 4 * suc k ≡ off + 4 + 4 * k = omega arith in
        let (i, e) = rest.complete k h (omega arith) (subst (λ o. IsHit img o h) at hit) in
        (suc i, e)

audit_loop-IsAudit :
    (fuel : ℕ) (img : Image) (off : ℕ)
    → off ≤ length img.bytes + 3
    → length img.bytes + 3 < off + 4 * fuel
    → (hits : List Hit) × (audit_loop fuel img off ≡ some hits) × IsAudit img off hits
unfolding audit_loop
audit_loop-IsAudit zero img off near enough = absurd (omega arith)
audit_loop-IsAudit (suc fuel) img off near enough =
    elim (Bool-cases (ltb (off + 3) (length img.bytes))) [
      | inl more ↦
          let (found, at_off) = hit_at-Returns img off in
          let (hits, rest, audit) =
            audit_loop-IsAudit fuel img (off + 4) (ground arith) (omega arith) in
          elim (Option-cases found) [
            | inl miss ↦ (
              hits,
              rw (more, audit_loop, at_off, rest, ◌>>=◌, miss) refl,
              IsAudit-skip img off hits (at_off ∙ ap some miss) audit,
            )
            | inr (x, hit) ↦ (
              x ∷ hits,
              rw (more, audit_loop, at_off, rest, ◌>>=◌, hit) refl,
              IsAudit-cons img off x hits (ground arith) (at_off ∙ ap some hit) audit,
            )
          ]
      | inr done ↦ (
        [],
        rw (done, audit_loop) refl,
        record { sound = λ i h e. absurd (cc); complete = λ k h inside hit. absurd (ground arith) },
      )
    ]

-- On every image `audit_straddle` returns. Each hit stands for a whole word of the image at a multiple
-- of four that decodes to an instruction whose target is the last word of a page, with the word at
-- that target if it is in the image; and every such word of the image has its hit.
pub audit_straddle-IsAudit :
    (img : Image) → (hits : List Hit) × (audit_straddle img ≡ some hits) × IsAudit img 0 hits
unfolding audit_straddle
audit_straddle-IsAudit img =
    audit_loop-IsAudit (suc (length img.bytes)) img 0 (omega arith) (omega arith)
