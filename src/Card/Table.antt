-- ===== src/Card/Table.antt =====
-- The partition table of tools/sdkernel.py: `mbr_entry`, `cmd_partition` and `cmd_writefs`.
use koti.Base.{
  ℕ, ◌+◌, ◌*◌, ◌%◌, ◌^◌, Option, none, some, Bool, true, false, ◌==◌, ltb, ◌>>=◌, List, [], ◌∷◌,
  ◌++◌, length, if◌then◌else◌,
}
use koti.Base.Int.{ℤ, pos, negsuc, sub_ℕ}
use koti.Base.Bytes.{to_le}
use koti.Card.Payload.{block, zeros}
use koti.Card.Device.{Device, overlay}
use koti.Card.Write.{
  bytes_eq, Outcome, verified, exit_refused, exit_not_whole, exit_bad_card, exception,
}

abbrev pub kernel_part_lba : ℕ
kernel_part_lba = 2048

abbrev pub kernel_part_sectors : ℕ
kernel_part_sectors = 16384

abbrev pub rootfs_part_lba : ℕ
rootfs_part_lba = kernel_part_lba + kernel_part_sectors

-- `bytes([0xFE, 0xFF, 0xFF])`.
abbrev pub chs_max : List ℕ
chs_max = 254 ∷ 255 ∷ 255 ∷ []

-- `struct.pack("<I", n)`; `none` is the struct.error.
unfoldable pub pack_word : ℤ → Option (List ℕ)
pack_word (pos n) = if ltb n (2 ^ 32) then some (to_le 4 n) else none
pack_word (negsuc n) = none

unfoldable pub mbr_entry : Bool → ℕ → ℤ → ℤ → Option (List ℕ)
mbr_entry boot ptype start count = do
  s ← pack_word start
  c ← pack_word count
  some ((if boot then 128 else 0) ∷ (chs_max ++ (ptype ∷ (chs_max ++ (s ++ c)))))

-- The new first block for a card of `total` sectors.
unfoldable pub make_mbr : ℕ → Option (List ℕ)
make_mbr total = do
  p1 ← mbr_entry false 218 (pos kernel_part_lba) (pos kernel_part_sectors)
  p2 ← mbr_entry false 131 (pos rootfs_part_lba) (sub_ℕ total rootfs_part_lba)
  some (overlay 510 (85 ∷ 170 ∷ []) (overlay 462 p2 (overlay 446 p1 (zeros block))))

module _ {S : Type 0} (device : Device S) where
  -- One write and the read back of as many bytes; `none` is an OSError.
  unfoldable pub put : S → ℕ → List ℕ → Option (S × List ℕ)
  put s off bytes = do
    s ← device.write_at s off bytes
    back ← device.read_at s off (length bytes)
    some (s, back)

  unfoldable pub check_put : S → ℕ → List ℕ → Outcome S
  check_put s off bytes = elim (put s off bytes) [
    | none ↦ exception
    | some (t, back) ↦ if bytes_eq back bytes then verified t else exit_bad_card
  ]

  unfoldable pub cmd_partition : S → ℕ → Bool → Outcome S
  cmd_partition s total confirmed = elim (device.read_at s 0 block) [
    | none ↦ exception
    | some old ↦ elim confirmed [
      | false ↦ exit_refused
      | true ↦ elim (make_mbr total) [ none ↦ exception | some mbr ↦ check_put s 0 mbr ]
    ]
  ]

  unfoldable pub cmd_writefs : S → List ℕ → Bool → Outcome S
  cmd_writefs s image confirmed = elim (length image % block == 0) [
    | false ↦ exit_not_whole
    | true ↦ elim confirmed [
      | false ↦ exit_refused
      | true ↦ check_put s (rootfs_part_lba * block) image
    ]
  ]
