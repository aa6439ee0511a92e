-- ===== src/Ktrace/Resolver.antt =====
-- `Resolver` of tools/ktrace.py: the symbol that an address belongs to.
use koti.Base.{
  leb, ℕ, ◌+◌, ◌-◌, ◌≤◌, ◌<◌, ◌≡◌, arith, Option, none, some, true, ◌==◌, ◌>>=◌, List, [], ◌∷◌,
  ◌++◌, if◌then◌else◌, length, get_elem?, get_elem?_lt, ◌⊎◌, inl, inr, Bool-cases, refl, suc, zero,
  ap,
}
use koti.Base.Int.{ℤ, ◌-ℤ◌, eq_ℤ, ◌≤ℤ◌, ◌<ℤ◌, pos_part, neg_part, sub_ℕ}
use koti.Base.Text.{Text, lit, hex}
use koti.Ktrace.Symbols.{Symbol}
use koti.Ktrace.Bisect.{bisect_right, IsSorted, bisect_right-IsCut}

-- `self.addrs`.
abbrev pub addrs : List Symbol → List ℤ
addrs [] = []
addrs (s ∷ syms) = s.addr ∷ addrs syms

-- `bisect.bisect_right(self.addrs, va)` minus one, as an index; the inner `none` is a negative one.
unfoldable pub find : List Symbol → ℤ → Option (Option Symbol)
find syms va = do
  i ← bisect_right (addrs syms) va
  if i == 0 then some none else (do s ← get_elem? syms (i - 1); some (some s))

unfoldable pub name_of : List Symbol → ℤ → Option Text
name_of syms va = do
  found ← find syms va
  elim found [ none ↦ some (lit "?") | some s ↦ some s.name ]

-- `name`, or `name+0x...` behind its start. Where `find` gives a symbol, the difference is not
-- negative.
unfoldable pub offset_of : List Symbol → ℤ → Option Text
offset_of syms va = do
  found ← find syms va
  elim found [
    | none ↦ some (lit "?")
    | some s ↦
        if eq_ℤ va s.addr
        then some s.name
        else some (s.name ++ lit "+0x" ++ hex (pos_part (va -ℤ s.addr)))
  ]

length-addrs : (syms : List Symbol) → length (addrs syms) ≡ length syms
length-addrs [] = refl
length-addrs (s ∷ syms) = ap suc (length-addrs syms)

pub get_elem?-addrs :
    (syms : List Symbol) (i : ℕ) (s : Symbol)
    → get_elem? syms i ≡ some s
    → get_elem? (addrs syms) i ≡ some s.addr
get_elem?-addrs [] i s e = absurd (cc)
get_elem?-addrs (x ∷ syms) zero s e = let same : x ≡ s = cc in rw same
get_elem?-addrs (x ∷ syms) (suc i) s e = get_elem?-addrs syms i s e

-- `s` is the last symbol of the table that starts at or below `va`.
pub record IsOwner (syms : List Symbol) (va : ℤ) (s : Symbol) : Type 0 where
  pub index : ℕ
  pub at_index : get_elem? syms index ≡ some s
  pub starts : s.addr ≤ℤ va
  pub later : (j : ℕ) (t : Symbol) → index < j → get_elem? syms j ≡ some t → va <ℤ t.addr

-- Every symbol of the table starts above `va`.
abbrev pub IsBelow : List Symbol → ℤ → Type 0
IsBelow syms va = (j : ℕ) (t : Symbol) → get_elem? syms j ≡ some t → va <ℤ t.addr

pub find_lem :
    (syms : List Symbol) (va : ℤ)
    → IsSorted (addrs syms)
    → ((find syms va ≡ some none) × IsBelow syms va)
      ⊎ ((s : Symbol) × (find syms va ≡ some (some s)) × IsOwner syms va s)
unfolding find
find_lem syms va sorted =
    let (i, cut_at, cut) = bisect_right-IsCut (addrs syms) va sorted in
    elim (Bool-cases (i == 0)) [
      | inl first ↦
          let zero_index : i ≡ 0 = ground arith in
          inl (
            rw (cut_at, ◌>>=◌, first),
            λ j t e. cut.behind j t.addr (omega arith) (get_elem?-addrs syms j t e),
          )
      | inr more ↦
          let above : 0 < i = ground arith in
          let (s, found) =
            get_elem?_lt syms (i - 1) (omega (arith, cut.inside, length-addrs syms)) in
          inr (
            s,
            rw (cut_at, ◌>>=◌, more, found),
            record {
              index = i - 1;
              at_index = found;
              starts =
                  cut.before (i - 1) s.addr (omega arith) (get_elem?-addrs syms (i - 1) s found);
              later = λ j t h e. cut.behind j t.addr (omega arith) (get_elem?-addrs syms j t e);
            },
          )
    ]

-- What `name` and `offset` answer on a table: "?" below its first symbol; else the last symbol that
-- starts at or below the address, with the distance from its start where there is one.
abbrev pub Answer : List Symbol → ℤ → Option Text → Option Text → Type 0
Answer syms va name offset =
    (IsBelow syms va × (name ≡ some (lit "?")) × (offset ≡ some (lit "?")))
    ⊎ ((s : Symbol) × IsOwner syms va s
        × (name ≡ some s.name)
        × (offset ≡ (
            if eq_ℤ va s.addr
            then some s.name
            else some (
                s.name
                ++ lit "+0x"
                ++ hex (pos_part va + neg_part s.addr - (neg_part va + pos_part s.addr))))))

sub_ℕ-le : (a b : ℕ) → b ≤ a → pos_part (sub_ℕ a b) ≡ a - b
sub_ℕ-le a b h = let fits : leb b a ≡ true = ground arith in rw (fits, sub_ℕ, pos_part) refl

distance :
    (a b : ℤ) → a ≤ℤ b → pos_part (b -ℤ a) ≡ pos_part b + neg_part a - (neg_part b + pos_part a)
unfolding ◌-ℤ◌
distance a b h = sub_ℕ-le (pos_part b + neg_part a) (neg_part b + pos_part a) (omega arith)

pub Answer-sorted :
    (syms : List Symbol) (va : ℤ)
    → IsSorted (addrs syms)
    → Answer syms va (name_of syms va) (offset_of syms va)
unfolding name_of offset_of
Answer-sorted syms va sorted = elim (find_lem syms va sorted) [
  | inl (nothing, below) ↦ rw nothing (inl (below, refl, refl))
  | inr (s, found, owner) ↦
      rw (found, ◌>>=◌) (inr (s, owner, refl, rw (distance s.addr va owner.starts) refl))
]
