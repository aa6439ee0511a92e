-- ===== src/Ktrace/Resolved.antt =====
-- `Resolver` of tools/ktrace.py on the table that `load_symbols` returns.
use koti.Base.{some, ◌≡◌, List}
use mathlib.Core.List.{Perm}
use koti.Base.Int.{ℤ}
use koti.Base.Text.{Text}
use koti.Ktrace.Symbols.{Symbol, read_symbols, load_symbols}
use koti.Ktrace.Sorted.{load_symbols-IsSorted}
use koti.Ktrace.Resolver.{Answer, Answer-sorted, name_of, offset_of}

-- Where `load_symbols` returns a table, it is the symbols of the file in some order, and on it `name`
-- and `offset` return for every address: "?" if every symbol starts above the address, else the name
-- of the last symbol of the table that starts at or below it, to which `offset` adds the distance
-- from its start unless that is zero.
pub name_of-load_symbols :
    (lines : List Text) (syms : List Symbol) (va : ℤ)
    → load_symbols lines ≡ some syms
    → Perm (read_symbols lines) syms × Answer syms va (name_of syms va) (offset_of syms va)
name_of-load_symbols lines syms va loaded =
    let (sorted, perm) = load_symbols-IsSorted lines syms loaded in
    (perm, Answer-sorted syms va sorted)
