-- ===== src/Card/Tests.antt =====
-- The theorems on the card at concrete inputs: a device that is a list of bytes, and a kernel of three.
use koti.Base.{
  ℕ, ◌+◌, ◌-◌, ◌*◌, ◌/◌, ◌%◌, ◌^◌, ◌<◌, ◌≤◌, ◌≡◌, refl, sym, ap, ◌∙◌, arith, Option, none, some,
  Bool, true, false, leb, List, [], ◌∷◌, ◌++◌, length, take, drop, ◌==◌, if◌then◌else◌, All, ◌⊎◌,
}
use koti.Base.Bytes.{IsByte}
use koti.Card.Words.{words, sum}
use koti.Card.Payload.{zeros, length-zeros, padded, length-padded, header}
use koti.Card.Firmware.{sd_load_kernel}
use koti.Card.Device.{Device, IsReadable, IsWritable, overlay}
use koti.Card.Write.{verified, cmd_write, compare_back, exit_mismatch, exception}
use koti.Card.Compared.{IsFirstDifference, IsProperPrefix, compare_back_lem}
use koti.Card.Written.{card_block}
use koti.Card.Verified.{cmd_write-boots, cmd_write-verified}
use koti.Card.Table.{make_mbr, cmd_partition, cmd_writefs, rootfs_part_lba}
use koti.Card.Inspect.{Report, cmd_inspect}
use koti.Card.Inspected.{card_partitions, cmd_inspect-cmd_partition}
use koti.Card.Kept.{check_put-succeeds, cmd_writefs-boots}
use koti.Card.Fake.{cmd_fake, cmd_build, hex_text, cmd_build-cmd_fake}

abbrev list_device : Device (List ℕ)
list_device = record {
  write_at = λ xs off bytes.
      if leb (off + length bytes) (length xs) then some (overlay off bytes xs) else none;
  read_at = λ xs off n. some (take n (drop off xs));
}

abbrev held : List ℕ → List ℕ
held xs = xs

list_device-IsReadable : IsReadable list_device held
list_device-IsReadable = record { reads = λ s off n. refl }

leb-≤ : (a b : ℕ) → a ≤ b → leb a b ≡ true
leb-≤ a b h = ground arith

list_device-IsWritable : IsWritable list_device held
list_device-IsWritable = record {
  writes = λ s off bytes h.
      (overlay off bytes s, rw (leb-≤ (off + length bytes) (length s) h) refl, refl);
}

abbrev three_bytes : List ℕ
three_bytes = 19 ∷ 0 ∷ 7 ∷ []

abbrev empty_card : List ℕ
empty_card = zeros 10000000

card_length : length empty_card ≡ 10000000
card_length = length-zeros 10000000

kernel_length : length (padded three_bytes) ≡ 512
kernel_length = length-padded three_bytes

cmd_write-verified_example :
    (t : List ℕ) × (cmd_write list_device empty_card three_bytes true ≡ verified t)
    × (length t ≡ length empty_card)
cmd_write-verified_example =
    cmd_write-verified list_device held empty_card three_bytes list_device-IsReadable
      list_device-IsWritable (omega arith) (omega arith) (omega (arith, card_length, kernel_length))

three_bytes_written :
    (t : List ℕ) × (cmd_write list_device empty_card three_bytes true ≡ verified t)
    × (length t ≡ length empty_card)
three_bytes_written =
    cmd_write-verified list_device held empty_card three_bytes list_device-IsReadable
      list_device-IsWritable (omega arith) (omega arith) (omega (arith, card_length, kernel_length))

cmd_write-boots_example :
    sd_load_kernel true (card_block three_bytes_written.0) ≡ some (words (padded three_bytes))
cmd_write-boots_example =
    cmd_write-boots list_device held empty_card three_bytes_written.0 three_bytes true
      list_device-IsReadable three_bytes_written.1

compare_back_lem_example :
    ((compare_back three_bytes (empty_card, 19 ∷ 0 ∷ []) ≡ verified empty_card)
      × (19 ∷ 0 ∷ [] ≡ three_bytes))
    ⊎ (((i : ℕ) × (compare_back three_bytes (empty_card, 19 ∷ 0 ∷ []) ≡ exit_mismatch i)
          × IsFirstDifference (19 ∷ 0 ∷ []) three_bytes i)
        ⊎ ((compare_back three_bytes (empty_card, 19 ∷ 0 ∷ []) ≡ exception)
            × IsProperPrefix (19 ∷ 0 ∷ []) three_bytes))
compare_back_lem_example = compare_back_lem empty_card (19 ∷ 0 ∷ []) three_bytes (omega arith)

cmd_build-cmd_fake_example :
    All IsByte (cmd_fake 2)
    × (cmd_build (cmd_fake 2)
        ≡ some (
          header 2 (sum (words (cmd_fake 2)) % 2 ^ 32) ++ cmd_fake 2,
          hex_text (header 2 (sum (words (cmd_fake 2)) % 2 ^ 32) ++ cmd_fake 2),
        ))
cmd_build-cmd_fake_example = cmd_build-cmd_fake 2 (omega arith) (omega arith)

small_mbr : (mbr : List ℕ) × (make_mbr 19000 ≡ some mbr) × (length mbr ≡ 512)
unfolding make_mbr koti.Card.Table.mbr_entry koti.Card.Table.pack_word overlay zeros
    koti.Base.Bytes.to_le
small_mbr = (_, refl, refl)

partitioned :
    (t : List ℕ) × (cmd_partition list_device empty_card 19000 true ≡ verified t)
    × (length t ≡ 10000000)
unfolding cmd_partition
partitioned =
    let (mbr, made, mbr_length) = small_mbr in
    let (t, done, len) =
      check_put-succeeds list_device held empty_card 0 mbr list_device-IsReadable
        list_device-IsWritable (omega (arith, card_length, mbr_length)) in
    (t, rw (made, cmd_partition) done, len ∙ card_length)

cmd_inspect-cmd_partition_example :
    (report : Report) × (cmd_inspect list_device partitioned.0 ≡ some report)
    × (report.sig_ok ≡ true)
    × (report.partitions ≡ card_partitions (19000 - rootfs_part_lba))
    × (rootfs_part_lba ≤ 19000)
cmd_inspect-cmd_partition_example =
    cmd_inspect-cmd_partition list_device held empty_card partitioned.0 19000 true
      list_device-IsReadable (omega (arith, partitioned.2)) partitioned.1

filled :
    (u : List ℕ) × (cmd_writefs list_device three_bytes_written.0 (zeros 512) true ≡ verified u)
unfolding cmd_writefs
filled =
    let (u, done, _) =
      check_put-succeeds list_device held three_bytes_written.0 9437184 (zeros 512)
        list_device-IsReadable list_device-IsWritable
        (omega (arith, three_bytes_written.2, card_length, length-zeros 512)) in
    let whole : (length (zeros 512) % 512 == 0) ≡ true = rw (length-zeros 512) refl in
    (u, rw (whole, cmd_writefs) done)

cmd_writefs-boots_example :
    sd_load_kernel true (card_block filled.0) ≡ some (words (padded three_bytes))
cmd_writefs-boots_example =
    cmd_writefs-boots list_device held empty_card three_bytes_written.0 filled.0 three_bytes
      (zeros 512) true true list_device-IsReadable list_device-IsWritable (omega arith)
      three_bytes_written.1 (omega (arith, three_bytes_written.2, card_length, length-zeros 512))
      filled.1
