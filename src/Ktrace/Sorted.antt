-- ===== src/Ktrace/Sorted.antt =====
-- The table that `load_symbols` of tools/ktrace.py returns is sorted by address and loses no symbol.
use koti.Base.{
  zero, suc, ◌≡◌, arith, none, some, true, false, List, [], ◌∷◌, All, Bool-cases, inl, inr, refl,
  All-get_elem?, sym,
}
use mathlib.Core.List.{Perm}
use mathlib.Core.List.Perm
use koti.Base.Int.{ℤ, pos, negsuc, ltb_ℤ, eq_ℤ, ◌≤ℤ◌}
use koti.Base.Text.{Text}
use koti.Ktrace.Symbols.{Symbol, symbol_lt, insert_symbol, sort_symbols, load_symbols, read_symbols}
use koti.Ktrace.Bisect.{IsSorted}
use koti.Ktrace.Resolver.{addrs}

-- Each address is at most all that follow it.
abbrev Ascending : List ℤ → Type 0
Ascending [] = Unit
Ascending (x ∷ xs) = All (λ y. x ≤ℤ y) xs × Ascending xs

Ascending-IsSorted : (xs : List ℤ) → Ascending xs → IsSorted xs
Ascending-IsSorted [] asc i j u v h eu ev = absurd (cc)
Ascending-IsSorted (x ∷ xs) asc zero zero u v h eu ev =
    let same : u ≡ v = cc in rw same (omega arith)
Ascending-IsSorted (x ∷ xs) asc zero (suc j) u v h eu ev =
    let same : x ≡ u = cc in rw (sym same) (All-get_elem? (λ y. x ≤ℤ y) xs j asc.0 ev)
Ascending-IsSorted (x ∷ xs) asc (suc i) zero u v h eu ev = absurd (omega arith)
Ascending-IsSorted (x ∷ xs) asc (suc i) (suc j) u v h eu ev =
    Ascending-IsSorted xs asc.1 i j u v (omega arith) eu ev

eq_ℤ-≤ℤ : (a b : ℤ) → eq_ℤ a b ≡ true → a ≤ℤ b
eq_ℤ-≤ℤ (pos a) (pos b) e = ground arith
eq_ℤ-≤ℤ (pos a) (negsuc b) e = absurd (cc)
eq_ℤ-≤ℤ (negsuc a) (pos b) e = absurd (cc)
eq_ℤ-≤ℤ (negsuc a) (negsuc b) e = ground arith

symbol_lt-addr : (a b : Symbol) → symbol_lt a b ≡ true → a.addr ≤ℤ b.addr
unfolding symbol_lt
symbol_lt-addr a b h = elim (Bool-cases (ltb_ℤ a.addr b.addr)) [
  | inl less ↦ ground arith
  | inr not_less ↦ elim (Bool-cases (eq_ℤ a.addr b.addr)) [
    | inl same ↦ eq_ℤ-≤ℤ a.addr b.addr same
    | inr other ↦ absurd (ground arith)
  ]
]

symbol_lt-addr_false : (a b : Symbol) → symbol_lt a b ≡ false → b.addr ≤ℤ a.addr
unfolding symbol_lt
symbol_lt-addr_false a b h = ground arith

addrs-insert_symbol :
    (x : ℤ) (s : Symbol) (ys : List Symbol)
    → x ≤ℤ s.addr
    → All (λ y. x ≤ℤ y) (addrs ys)
    → All (λ y. x ≤ℤ y) (addrs (insert_symbol s ys))
unfolding insert_symbol
addrs-insert_symbol x s [] h hs = (h, tt)
addrs-insert_symbol x s (y ∷ ys) h hs = elim (Bool-cases (symbol_lt y s)) [
  | inl less ↦ rw (less, insert_symbol) (hs.0, addrs-insert_symbol x s ys h hs.1)
  | inr other ↦ rw (other, insert_symbol) (h, hs)
]

All-≤ℤ-trans : (x y : ℤ) (zs : List ℤ) → x ≤ℤ y → All (λ z. y ≤ℤ z) zs → All (λ z. x ≤ℤ z) zs
All-≤ℤ-trans x y [] h hs = tt
All-≤ℤ-trans x y (z ∷ zs) h hs = (omega (arith, hs.0), All-≤ℤ-trans x y zs h hs.1)

insert_symbol-Ascending :
    (s : Symbol) (ys : List Symbol) → Ascending (addrs ys) → Ascending (addrs (insert_symbol s ys))
unfolding insert_symbol
insert_symbol-Ascending s [] asc = (tt, tt)
insert_symbol-Ascending s (y ∷ ys) asc = elim (Bool-cases (symbol_lt y s)) [
  | inl less ↦
      rw (less, insert_symbol)
        (
          addrs-insert_symbol y.addr s ys (symbol_lt-addr y s less) asc.0,
          insert_symbol-Ascending s ys asc.1,
        )
  | inr other ↦
      let first = symbol_lt-addr_false y s other in
      rw (other, insert_symbol) ((first, All-≤ℤ-trans s.addr y.addr (addrs ys) first asc.0), asc)
]

sort_symbols-Ascending : (xs : List Symbol) → Ascending (addrs (sort_symbols xs))
unfolding sort_symbols
sort_symbols-Ascending [] = tt
sort_symbols-Ascending (x ∷ xs) =
    insert_symbol-Ascending x (sort_symbols xs) (sort_symbols-Ascending xs)

insert_symbol-Perm : (s : Symbol) (ys : List Symbol) → Perm (s ∷ ys) (insert_symbol s ys)
unfolding insert_symbol
insert_symbol-Perm s [] = Perm.rfl
insert_symbol-Perm s (y ∷ ys) = elim (Bool-cases (symbol_lt y s)) [
  | inl less ↦
      rw (less, insert_symbol)
        (Perm.trans (Perm.swap y s ys) (Perm.cons y (insert_symbol-Perm s ys)))
  | inr other ↦ rw (other, insert_symbol) Perm.rfl
]

sort_symbols-Perm : (xs : List Symbol) → Perm xs (sort_symbols xs)
unfolding sort_symbols
sort_symbols-Perm [] = Perm.rfl
sort_symbols-Perm (x ∷ xs) =
    Perm.trans (Perm.cons x (sort_symbols-Perm xs)) (insert_symbol-Perm x (sort_symbols xs))

pub load_symbols-IsSorted :
    (lines : List Text) (syms : List Symbol)
    → load_symbols lines ≡ some syms
    → IsSorted (addrs syms) × Perm (read_symbols lines) syms
unfolding load_symbols
load_symbols-IsSorted lines syms e = by_read (read_symbols lines) refl
  where
    by_read :
        (raw : List Symbol)
        → raw ≡ read_symbols lines
        → IsSorted (addrs syms) × Perm (read_symbols lines) syms
    by_read [] r =
        absurd (let none_here : load_symbols lines ≡ none = rw (sym r, load_symbols) in cc)
    by_read (s ∷ raw) r =
        let loaded : load_symbols lines ≡ some (sort_symbols (s ∷ raw)) =
          rw (sym r, load_symbols) in
        let same : sort_symbols (s ∷ raw) ≡ syms = cc in
        rw (sym r, sym same)
          (Ascending-IsSorted _ (sort_symbols-Ascending (s ∷ raw)), sort_symbols-Perm (s ∷ raw))
