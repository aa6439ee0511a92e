-- ===== src/Ktrace/Straddle.antt =====
-- `audit_straddle` of tools/ktrace.py with its default page of 4 KiB, and what it finds.
use koti.Base.{
  ℕ, zero, suc, ◌+◌, ◌%◌, ◌≡◌, arith, Option, none, some, Bool, true, false, ◌==◌, ltb, ◌>>=◌, List,
  [], ◌∷◌, if◌then◌else◌, length, Bool-cases, inl, inr, refl, sym, Option-cases, subst,
}
use koti.Rvdis.Word.{Insn}
use koti.Rvdis.Decode.{decode}
use koti.Rvdis.Walk.{word_at}
use koti.Rvdis.Total.{decode-Returns}
use koti.Ktrace.Image.{Image, word}

-- One entry of `hits`.
pub record Hit : Type 0 where
  pub va : ℕ
  pub ins : Insn
  pub target_word : Option ℕ

-- `ins.target is not None and (ins.target & (page - 1)) == page - 4`.
unfoldable pub on_last_word : Option ℕ → Bool
on_last_word none = false
on_last_word (some target) = target % 4096 == 4092

unfoldable pub target_word_of : Image → Option ℕ → Option ℕ
target_word_of img none = none
target_word_of img (some target) = word img target

unfoldable pub hit_of : Image → ℕ → Insn → Option Hit
hit_of img off ins =
    if on_last_word ins.target
    then some
        (record { va = img.load_va + off; ins = ins; target_word = target_word_of img ins.target })
    else none

-- The body of the loop at one offset; the outer `none` is an exception.
unfoldable pub hit_at : Image → ℕ → Option (Option Hit)
hit_at img off = do
  ins ← decode (word_at img.bytes off) (img.load_va + off)
  some (hit_of img off ins)

-- `for off in range(0, len(img.bytes) - 3, 4)`, from `off` on; `none` when the fuel runs out.
unfoldable pub audit_loop : ℕ → Image → ℕ → Option (List Hit)
audit_loop zero img off = none
audit_loop (suc fuel) img off = elim (ltb (off + 3) (length img.bytes)) [
  | true ↦ do
    found ← hit_at img off
    rest ← audit_loop fuel img (off + 4)
    elim found [ none ↦ some rest | some hit ↦ some (hit ∷ rest) ]
  | false ↦ some []
]

-- Each round takes four bytes, so the length is fuel enough.
unfoldable pub audit_straddle : Image → Option (List Hit)
audit_straddle img = audit_loop (suc (length img.bytes)) img 0

-- What makes `h` a hit at `off`.
pub record IsHit (img : Image) (off : ℕ) (h : Hit) : Type 0 where
  pub at_va : h.va ≡ img.load_va + off
  pub decoded : decode (word_at img.bytes off) (img.load_va + off) ≡ some h.ins
  pub target : ℕ
  pub has_target : h.ins.target ≡ some target
  pub last_word : target % 4096 ≡ 4092
  pub found : h.target_word ≡ word img target

pub hit_at-Returns : (img : Image) (off : ℕ) → (found : Option Hit) × (hit_at img off ≡ some found)
unfolding hit_at
hit_at-Returns img off =
    let (ins, decoded, _, _) = decode-Returns (word_at img.bytes off) (img.load_va + off) in
    (hit_of img off ins, rw decoded refl)

hit_of-IsHit :
    (img : Image) (off : ℕ) (ins : Insn) (h : Hit)
    → decode (word_at img.bytes off) (img.load_va + off) ≡ some ins
    → hit_of img off ins ≡ some h
    → IsHit img off h
unfolding hit_of on_last_word target_word_of
hit_of-IsHit img off ins h decoded e = elim (Option-cases ins.target) [
  | inl nowhere ↦ absurd (ground arith)
  | inr (t, there) ↦ elim (Bool-cases (t % 4096 == 4092)) [
    | inl last ↦
        let made : hit_of img off ins
            ≡ some (record {
              va = img.load_va + off;
              ins = ins;
              target_word = target_word_of img ins.target;
            }) =
          rw (there, hit_of, on_last_word, last) refl in
        let same : Path Hit
            (record {
              va = img.load_va + off;
              ins = ins;
              target_word = target_word_of img ins.target;
            })
            h =
          cc in
        subst (IsHit img off) same (record {
          at_va = refl;
          decoded = decoded;
          target = t;
          has_target = there;
          last_word = ground arith;
          found = rw there refl;
        })
    | inr other ↦ absurd (ground arith)
  ]
]

pub hit_at-IsHit :
    (img : Image) (off : ℕ) (h : Hit) → hit_at img off ≡ some (some h) → IsHit img off h
unfolding hit_at
hit_at-IsHit img off h e =
    let (ins, decoded, _, _) = decode-Returns (word_at img.bytes off) (img.load_va + off) in
    let made : hit_at img off ≡ some (hit_of img off ins) = rw decoded refl in
    hit_of-IsHit img off ins h decoded cc

pub IsHit-hit_at :
    (img : Image) (off : ℕ) (h : Hit) → IsHit img off h → hit_at img off ≡ some (some h)
unfolding hit_at hit_of on_last_word target_word_of
IsHit-hit_at img off h is_hit =
    let last : (is_hit.target % 4096 == 4092) ≡ true = (let e = is_hit.last_word in ground arith) in
    rw (is_hit.decoded, ◌>>=◌, is_hit.has_target, last, sym is_hit.at_va, sym is_hit.found) refl
