-- ===== src/Card/Inspect.antt =====
-- `cmd_inspect` of tools/sdkernel.py, as the report that it prints.
use koti.Base.{
  ℕ, zero, suc, ◌+◌, ◌*◌, Option, none, some, Bool, true, false, ◌==◌, ◌>>=◌, List, [], ◌∷◌, length,
  take, drop, get_elem?, if◌then◌else◌,
}
use koti.Card.Words.{read_word}
use koti.Card.Payload.{block, hdr_lba, magic}
use koti.Card.Device.{Device}
use koti.Card.Write.{bytes_eq}

pub record Partition : Type 0 where
  pub number : ℕ
  pub ptype : ℕ
  pub start : ℕ
  pub count : ℕ

pub record BootHeader : Type 0 where
  pub version : ℕ
  pub blocks : ℕ
  pub load : ℕ
  pub total : ℕ

pub record Report : Type 0 where
  pub sig_ok : Bool
  pub partitions : List Partition
  pub boot : Option BootHeader

-- `struct.unpack("<II", bs)`; `none` is the struct.error of another length.
unfoldable pub unpack_pair : List ℕ → Option (ℕ × ℕ)
unpack_pair bs = if length bs == 8 then some (read_word bs 0, read_word bs 1) else none

-- The rounds of `for i in range(4)` that are left, from `i` on.
unfoldable pub list_partitions : ℕ → ℕ → List ℕ → Option (List Partition)
list_partitions zero i mbr = some []
list_partitions (suc n) i mbr = do
  let e = take 16 (drop (446 + i * 16) mbr)
  ptype ← get_elem? e 4
  rest ← list_partitions n (i + 1) mbr
  elim (ptype == 0) [
    | true ↦ some rest
    | false ↦ do
      (start, count) ← unpack_pair (take 8 (drop 8 e))
      some (record { number = i + 1; ptype = ptype; start = start; count = count } ∷ rest)
  ]

-- The header block.
unfoldable pub boot_header : List ℕ → Option (Option BootHeader)
boot_header hdr = elim (length (take 20 hdr) == 20) [
  | false ↦ none
  | true ↦
      if read_word hdr 0 == magic
      then some (
          some (record {
            version = read_word hdr 1;
            blocks = read_word hdr 2;
            load = read_word hdr 3;
            total = read_word hdr 4;
          }))
      else some none
]

-- `none` is an exception, an OSError or that of a short read.
unfoldable pub cmd_inspect : {S : Type 0} → Device S → S → Option Report
cmd_inspect device s = do
  mbr ← device.read_at s 0 block
  first ← get_elem? mbr 510
  second ← get_elem? mbr 511
  partitions ← list_partitions 4 0 mbr
  hdr ← device.read_at s (hdr_lba * block) block
  boot ← boot_header hdr
  some (record {
    sig_ok = bytes_eq (take 2 (drop 510 mbr)) (85 ∷ 170 ∷ []);
    partitions = partitions;
    boot = boot;
  })
