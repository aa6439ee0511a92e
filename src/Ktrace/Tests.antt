-- ===== src/Ktrace/Tests.antt =====
-- The theorems on tools/ktrace.py at concrete inputs: a small System.map, an image with one jump to
-- the last word of a page, and a line of each trace.
use koti.Base.{
  ℕ, ◌+◌, ◌*◌, ◌<◌, ◌≡◌, refl, Option, none, some, true, false, List, [], ◌∷◌, ◌++◌, replicate,
}
use mathlib.Core.List.{Perm}
use koti.Base.Int.{pos, ◌+ℤ◌, ◌-ℤ◌}
use koti.Base.Text.{Text, codes, lit}
use koti.Ktrace.Symbols.{Symbol, load_symbols, read_symbols, sort_symbols, symbol_of}
use koti.Ktrace.Resolver.{Answer, name_of, offset_of}
use koti.Ktrace.Resolved.{name_of-load_symbols}
use koti.Ktrace.Image.{Image}
use koti.Ktrace.Straddle.{Hit}
use koti.Ktrace.Audit.{IsAudit, audit_straddle-IsAudit}
use koti.Ktrace.Straddle.{audit_straddle}
use koti.Ktrace.Lines.{row}
use koti.Ktrace.Parsed.{fetch_line, pc_line, row-fetch_line, row-pc_line}

abbrev map_lines : List Text
map_lines = codes "c0000010 T kfree" ∷ codes "c0000000 T _start" ∷ codes "garbage" ∷ []

abbrev table : List Symbol
table =
    record { addr = pos 3221225472; name = codes "_start" }
    ∷ record { addr = pos 3221225488; name = codes "kfree" }
    ∷ []

loaded : load_symbols map_lines ≡ some table
unfolding load_symbols read_symbols sort_symbols symbol_of koti.Ktrace.Symbols.split_three
    koti.Base.Strings.int_hex koti.Base.Strings.int_prefixed koti.Base.Strings.int_digits
    koti.Ktrace.Symbols.insert_symbol koti.Ktrace.Symbols.symbol_lt koti.Ktrace.Symbols.text_lt
    koti.Base.Strings.strip koti.Base.Strings.drop_space koti.Base.Strings.is_space
    koti.Ktrace.Symbols.is_word koti.Base.Number.span koti.Base.Number.is_hex
    koti.Base.Number.is_dec koti.Base.Number.digit_value
loaded = refl

name_of-load_symbols_example :
    Perm (read_symbols map_lines) table
    × Answer table
        (pos 3221225500)
        (name_of table (pos 3221225500))
        (offset_of table (pos 3221225500))
name_of-load_symbols_example = name_of-load_symbols map_lines table (pos 3221225500) loaded

-- jal zero,0xffc at address 0, and a nop.
abbrev image : Image
image = record { bytes = 111 ∷ 0 ∷ 208 ∷ 127 ∷ 19 ∷ 0 ∷ 0 ∷ 0 ∷ []; load_va = 0 }

audit_straddle-IsAudit_example :
    (hits : List Hit) × (audit_straddle image ≡ some hits) × IsAudit image 0 hits
audit_straddle-IsAudit_example = audit_straddle-IsAudit image

row-fetch_line_example :
    row 20971520 3221225472 (fetch_line 12345 20971536 true false 4096 true false false [])
    ≡ some (record {
      clock = 12345;
      va = (pos 20971536 -ℤ pos 20971520) +ℤ pos 3221225472;
      tag = lit "fetch";
      stalled = true;
    })
row-fetch_line_example =
    row-fetch_line 20971520 3221225472 12345 20971536 4096 true false true false false []

row-pc_line_example :
    row 20971520 3221225472 (pc_line 7 3221261308 3221261304 64 true false true [])
    ≡ some (record { clock = 7; va = pos 3221261308; tag = lit "pc_d"; stalled = false })
row-pc_line_example = row-pc_line 20971520 3221225472 7 3221261308 3221261304 64 true false true []
