-- ===== src/Rvdis/Listing.antt =====
-- `walk` of tools/rvdis.py returns the instructions of the buffer one after the other.
use koti.Base.{
  ℕ, zero, suc, ◌+◌, ◌-◌, ◌*◌, ◌/◌, ◌<◌, ◌≤◌, ◌≡◌, sym, arith, Option, none, some, true, false, leb,
  ◌&&◌, List, [], ◌∷◌, length, get_elem?, Bool-cases, inl, inr, Returns,
}
use Prim.Native.Nat.{min}
use koti.Base.Text.{Text}
use koti.Rvdis.Word.{Insn}
use koti.Rvdis.Decode.{annotate}
use koti.Rvdis.Total.{decode-Returns}
use koti.Rvdis.Walk.{word_at, in_count, yield_at, walk_loop, walk, start_offset}

-- How many instructions are still due after `n` of them, with room for `room`.
abbrev pub due : ℕ → Option ℕ → ℕ → ℕ
due n none room = room
due n (some c) room = min (c - n) room

due-suc :
    (n len off : ℕ) (count : Option ℕ)
    → leb (off + 4) len && in_count n count ≡ true
    → due n count ((len - off) / 4) ≡ suc (due (n + 1) count ((len - (off + 4)) / 4))
unfolding in_count
due-suc n len off none h = ground arith
due-suc n len off (some c) h = ground arith

due-zero :
    (n len off : ℕ) (count : Option ℕ)
    → leb (off + 4) len && in_count n count ≡ false
    → due n count ((len - off) / 4) ≡ 0
unfolding in_count
due-zero n len off none h = ground arith
due-zero n len off (some c) h = ground arith

yield_at-Returns :
    (bytes : List ℕ) (base off : ℕ) (symfn : Option (ℕ → Text))
    → Returns (yield_at bytes base off symfn)
unfolding yield_at
yield_at-Returns bytes base off symfn =
    let (ins, decoded, _, _) = decode-Returns (word_at bytes off) (base + off) in
    (record ins { text = annotate ins symfn }, rw decoded)

-- `xs` holds `k` instructions, those at `off`, `off + 4` and so on.
pub record IsListing (bytes : List ℕ) (base off k : ℕ) (symfn : Option (ℕ → Text)) (xs : List Insn)
    : Type 0 where
  pub count_eq : length xs ≡ k
  pub each : (i : ℕ) → i < k → yield_at bytes base (off + 4 * i) symfn ≡ get_elem? xs i

IsListing-cons :
    (bytes : List ℕ) (base off k j : ℕ) (symfn : Option (ℕ → Text)) (x : Insn) (xs : List Insn)
    → yield_at bytes base off symfn ≡ some x
    → k ≡ suc j
    → IsListing bytes base (off + 4) j symfn xs
    → IsListing bytes base off k symfn (x ∷ xs)
IsListing-cons bytes base off k j symfn x xs first e rest = record {
  count_eq = omega (arith, rest.count_eq);
  each = each;
}
  where
    each : (i : ℕ) → i < k → yield_at bytes base (off + 4 * i) symfn ≡ get_elem? (x ∷ xs) i
    each zero h = let at : off + 4 * 0 ≡ off = omega arith in rw at first
    each (suc i) h =
        let at : off + 4 * suc i ≡ off + 4 + 4 * i = omega arith in
        rw at (rest.each i (omega arith))

walk_loop-IsListing :
    (fuel : ℕ) (bytes : List ℕ) (base : ℕ) (count : Option ℕ) (symfn : Option (ℕ → Text))
    (off n : ℕ)
    → (length bytes - off) / 4 < fuel
    → (xs : List Insn) × (walk_loop fuel bytes base count symfn off n ≡ some xs)
      × IsListing bytes base off (due n count ((length bytes - off) / 4)) symfn xs
unfolding walk_loop
walk_loop-IsListing zero bytes base count symfn off n h = absurd (omega arith)
walk_loop-IsListing (suc fuel) bytes base count symfn off n h =
    elim (Bool-cases (leb (off + 4) (length bytes) && in_count n count)) [
      | inl more ↦
          let (x, first) = yield_at-Returns bytes base off symfn in
          let (xs, rest, listed) =
            walk_loop-IsListing fuel bytes base count symfn (off + 4) (n + 1)
              (omega (arith, room more)) in
          (
            x ∷ xs,
            rw (more, walk_loop) (rw (first, rest)),
            IsListing-cons bytes base off _ _ symfn x xs first
                (due-suc n (length bytes) off count more) listed,
          )
      | inr done ↦ (
        [],
        rw (done, walk_loop),
        record {
          count_eq = sym (due-zero n (length bytes) off count done);
          each = λ i lt. absurd (omega (arith, due-zero n (length bytes) off count done));
        },
      )
    ]
  where
    room : leb (off + 4) (length bytes) && in_count n count ≡ true → off + 4 ≤ length bytes
    room more = ground arith

-- Where the start address lies in the buffer, `walk` returns: it yields one instruction for each
-- whole word from there on, `count` at most if a count is given, and the `i`-th of them is what
-- `decode` makes of the four bytes at `4 * i` from the start, annotated with its target's symbol.
pub walk-IsListing :
    (bytes : List ℕ) (base off : ℕ) (start count : Option ℕ) (symfn : Option (ℕ → Text))
    → start_offset bytes base start ≡ some off
    → (xs : List Insn) × (walk bytes base start count symfn ≡ some xs)
      × IsListing bytes base off (due 0 count ((length bytes - off) / 4)) symfn xs
unfolding walk
walk-IsListing bytes base off start count symfn e =
    rw (e, walk)
      (walk_loop-IsListing (suc (length bytes)) bytes base count symfn off 0 (omega arith))
