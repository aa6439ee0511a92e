-- ===== src/Ktrace/Bisect.antt =====
-- `bisect.bisect_right` of Python's standard library, which tools/ktrace.py calls on the addresses of
-- its table: the binary search and its result on a sorted list.
use koti.Base.{
  ℕ, zero, suc, ◌+◌, ◌/◌, ◌<◌, ◌≤◌, ◌≡◌, ◌∙◌, arith, Option, none, some, true, false, ltb, ◌>>=◌,
  List, length, get_elem?, get_elem?_lt, get_elem?_ge, Bool-cases, inl, inr,
}
use koti.Base.Int.{ℤ, ltb_ℤ, ◌<ℤ◌, ◌≤ℤ◌}

-- `while lo < hi`: the range is halved in each round, so more fuel than its length is enough. `none`
-- is an IndexError, or the end of the fuel.
unfoldable pub bisect_loop : ℕ → List ℤ → ℤ → ℕ → ℕ → Option ℕ
bisect_loop zero a x lo hi = none
bisect_loop (suc fuel) a x lo hi = elim (ltb lo hi) [
  | true ↦ do
    let mid = (lo + hi) / 2
    v ← get_elem? a mid
    elim (ltb_ℤ x v) [
      | true ↦ bisect_loop fuel a x lo mid
      | false ↦ bisect_loop fuel a x (mid + 1) hi
    ]
  | false ↦ some lo
]

unfoldable pub bisect_right : List ℤ → ℤ → Option ℕ
unfolding bisect_loop
bisect_right a x = bisect_loop (suc (length a)) a x 0 (length a)

-- The entries do not fall.
abbrev pub IsSorted : List ℤ → Type 0
IsSorted a = (i j : ℕ) (u v : ℤ) → i ≤ j → get_elem? a i ≡ some u → get_elem? a j ≡ some v → u ≤ℤ v

-- `i` cuts the list: what stands before it is at most `x`, and what stands from it on is above.
pub record IsCut (a : List ℤ) (x : ℤ) (i : ℕ) : Type 0 where
  pub inside : i ≤ length a
  pub before : (j : ℕ) (v : ℤ) → j < i → get_elem? a j ≡ some v → v ≤ℤ x
  pub behind : (j : ℕ) (v : ℤ) → i ≤ j → get_elem? a j ≡ some v → x <ℤ v

bisect_loop_left :
    (fuel : ℕ) (a : List ℤ) (x v : ℤ) (lo hi : ℕ)
    → ltb lo hi ≡ true
    → get_elem? a ((lo + hi) / 2) ≡ some v
    → ltb_ℤ x v ≡ true
    → bisect_loop (suc fuel) a x lo hi ≡ bisect_loop fuel a x lo ((lo + hi) / 2)
unfolding bisect_loop
bisect_loop_left fuel a x v lo hi more found above = rw (more, bisect_loop, found, ◌>>=◌, above)

bisect_loop_right :
    (fuel : ℕ) (a : List ℤ) (x v : ℤ) (lo hi : ℕ)
    → ltb lo hi ≡ true
    → get_elem? a ((lo + hi) / 2) ≡ some v
    → ltb_ℤ x v ≡ false
    → bisect_loop (suc fuel) a x lo hi ≡ bisect_loop fuel a x ((lo + hi) / 2 + 1) hi
unfolding bisect_loop
bisect_loop_right fuel a x v lo hi more found not_above =
    rw (more, bisect_loop, found, ◌>>=◌, not_above)

bisect_loop-IsCut :
    (fuel : ℕ) (a : List ℤ) (x : ℤ) (lo hi : ℕ)
    → IsSorted a
    → hi < lo + fuel
    → lo ≤ hi
    → hi ≤ length a
    → ((j : ℕ) (v : ℤ) → j < lo → get_elem? a j ≡ some v → v ≤ℤ x)
    → ((j : ℕ) (v : ℤ) → hi ≤ j → get_elem? a j ≡ some v → x <ℤ v)
    → (i : ℕ) × (bisect_loop fuel a x lo hi ≡ some i) × IsCut a x i
unfolding bisect_loop
bisect_loop-IsCut zero a x lo hi sorted enough order fits low high = absurd (omega arith)
bisect_loop-IsCut (suc fuel) a x lo hi sorted enough order fits low high =
    elim (Bool-cases (ltb lo hi)) [
      | inl more ↦
          let below : lo < hi = ground arith in
          let mid = (lo + hi) / 2 in
          let (v, found) = get_elem?_lt a mid (omega arith) in
          elim (Bool-cases (ltb_ℤ x v)) [
            | inl above ↦
                let x_below : x <ℤ v = ground arith in
                let (i, returned, cut) =
                  bisect_loop-IsCut fuel a x lo mid sorted (omega arith) (omega arith) (omega arith)
                    low λ j w h e. omega (arith, sorted mid j v w h found e) in
                (i, bisect_loop_left fuel a x v lo hi more found above ∙ returned, cut)
            | inr not_above ↦
                let v_below : v ≤ℤ x = ground arith in
                let (i, returned, cut) =
                  bisect_loop-IsCut fuel a x (mid + 1) hi sorted (omega arith) (omega arith) fits
                    (λ j w h e. omega (arith, sorted j mid w v (omega arith) e found)) high in
                (i, bisect_loop_right fuel a x v lo hi more found not_above ∙ returned, cut)
          ]
      | inr done ↦ (
        lo,
        rw (done, bisect_loop),
        record { inside = omega arith; before = low; behind = λ j v h. high j v (ground arith) },
      )
    ]

-- On a list that does not fall, `bisect_right` returns, and its result is the number of leading
-- entries that are at most `x`.
pub bisect_right-IsCut :
    (a : List ℤ) (x : ℤ) → IsSorted a → (i : ℕ) × (bisect_right a x ≡ some i) × IsCut a x i
unfolding bisect_right
bisect_right-IsCut a x sorted =
    bisect_loop-IsCut (suc (length a)) a x 0 (length a) sorted (omega arith) (omega arith)
      (omega arith) (λ j v h. absurd (omega arith)) (λ j v h e. cc (get_elem?_ge a j h))
