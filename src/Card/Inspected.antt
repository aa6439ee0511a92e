-- ===== src/Card/Inspected.antt =====
-- What `cmd_inspect` of tools/sdkernel.py reports of a card that the other commands wrote.
use koti.Base.{
  ℕ, ◌+◌, ◌-◌, ◌*◌, ◌^◌, ◌<◌, ◌≤◌, ◌≡◌, refl, sym, ap, ◌∙◌, arith, none, some, Bool, true, ◌==◌,
  ltb, leb, ◌>>=◌, List, [], ◌∷◌, ◌++◌, length, take, drop, get_elem?, Option-cases, Bool-cases,
  inl, inr, Returns, length-take, length-drop,
}
use koti.Base.Int.{sub_ℕ}
use koti.Base.Bytes.{to_le, from_le, from_le-to_le}
use koti.Card.Payload.{block, zeros, magic, hdr_lba}
use koti.Card.Device.{Device, IsReadable, overlay}
use koti.Card.Write.{bytes_eq, verified, exit_refused, exit_bad_card, exception}
use koti.Card.Table.{
  kernel_part_lba, kernel_part_sectors, rootfs_part_lba, make_mbr, mbr_entry, pack_word, put,
  check_put, cmd_partition,
}
use koti.Card.Inspect.{Partition, list_partitions, unpack_pair, Report, cmd_inspect, boot_header}
use koti.Card.Compared.{bytes_eq-≡}
use koti.Card.Words.{read_word}

-- The kernel's partition, and a filesystem's partition of `count` sectors behind it.
abbrev pub card_partitions : ℕ → List Partition
card_partitions count =
    record { number = 1; ptype = 218; start = kernel_part_lba; count = kernel_part_sectors }
    ∷ record { number = 2; ptype = 131; start = rootfs_part_lba; count = count }
    ∷ []

-- The table for a second partition of `count` sectors.
abbrev pub mbr_of : ℕ → List ℕ
mbr_of count = overlay 510 (85 ∷ 170 ∷ []) (
    overlay 462
      (0 ∷ 254 ∷ 255 ∷ 255 ∷ 131 ∷ 254 ∷ 255 ∷ 255 ∷ (to_le 4 rootfs_part_lba ++ to_le 4 count))
      (overlay 446
        (0
          ∷ 254
          ∷ 255
          ∷ 255
          ∷ 218
          ∷ 254
          ∷ 255
          ∷ 255
          ∷ (to_le 4 kernel_part_lba ++ to_le 4 kernel_part_sectors))
        (zeros block)))

make_mbr-inv :
    (total : ℕ) (mbr : List ℕ)
    → make_mbr total ≡ some mbr
    → (rootfs_part_lba ≤ total)
      × (total - rootfs_part_lba < 2 ^ 32)
      × (mbr ≡ mbr_of (total - rootfs_part_lba))
unfolding make_mbr mbr_entry pack_word
make_mbr-inv total mbr e = elim (Bool-cases (leb rootfs_part_lba total)) [
  | inr short ↦
      let failed : make_mbr total ≡ none = rw (short, make_mbr, mbr_entry, pack_word, sub_ℕ) refl in
      absurd (cc)
  | inl fits ↦ elim (Bool-cases (ltb (total - rootfs_part_lba) (2 ^ 32))) [
    | inr large ↦
        let failed : make_mbr total ≡ none =
          rw (fits, make_mbr, mbr_entry, sub_ℕ, pack_word, large, ◌>>=◌) refl in
        absurd (cc)
    | inl small ↦
        let made : make_mbr total ≡ some (mbr_of (total - rootfs_part_lba)) =
          rw (fits, make_mbr, mbr_entry, sub_ℕ, pack_word, small, ◌>>=◌) refl in
        (ground arith, ground arith, cc)
  ]
]

list_partitions-mbr_of :
    (count : ℕ) → count < 2 ^ 32 → list_partitions 4 0 (mbr_of count) ≡ some (card_partitions count)
unfolding list_partitions overlay zeros to_le from_le unpack_pair read_word
list_partitions-mbr_of count h =
    ap
      (λ (c : ℕ). some (
        record { number = 1; ptype = 218; start = kernel_part_lba; count = kernel_part_sectors }
        ∷ record { number = 2; ptype = 131; start = rootfs_part_lba; count = c }
        ∷ []))
      (from_le-to_le 4 count h)

check_put-verified :
    {S : Type 0} (device : Device S) (contents : S → List ℕ) (s t : S) (off : ℕ) (bytes : List ℕ)
    → IsReadable device contents
    → check_put device s off bytes ≡ verified t
    → take (length bytes) (drop off (contents t)) ≡ bytes
unfolding check_put put
check_put-verified {S = S} device contents s t off bytes readable e =
    elim (Option-cases (device.write_at s off bytes)) [
      | inl stop ↦
          let failed : check_put device s off bytes ≡ exception = rw (stop, check_put, put) refl in
          absurd (cc)
      | inr (u, written) ↦
          let back = take (length bytes) (drop off (contents u)) in
          let put_eq : put device s off bytes ≡ some (u, back) =
            rw (written, put, ◌>>=◌, readable.reads u off (length bytes)) refl in
          elim (Bool-cases (bytes_eq back bytes)) [
            | inr other ↦
                let bad : check_put device s off bytes ≡ exit_bad_card =
                  rw (put_eq, check_put, other) refl in
                absurd (cc)
            | inl same ↦
                let good : check_put device s off bytes ≡ verified u =
                  rw (put_eq, check_put, same) refl in
                let state : u ≡ t = cc in
                ap (λ (v : S). take (length bytes) (drop off (contents v))) (sym state)
                ∙ bytes_eq-≡ back bytes same
          ]
    ]

mbr_of-marks :
    (count : ℕ)
    → (get_elem? (mbr_of count) 510 ≡ some 85)
      × (get_elem? (mbr_of count) 511 ≡ some 170)
      × (bytes_eq (take 2 (drop 510 (mbr_of count))) (85 ∷ 170 ∷ []) ≡ true)
      × (length (mbr_of count) ≡ block)
unfolding overlay zeros to_le bytes_eq
mbr_of-marks count = (refl, refl, refl, refl)

boot_header-Returns : (hdr : List ℕ) → 20 ≤ length hdr → Returns (boot_header hdr)
unfolding boot_header
boot_header-Returns hdr h =
    let long : (length (take 20 hdr) == 20) ≡ true = (let l = length-take 20 hdr in ground arith) in
    elim (Bool-cases (read_word hdr 0 == magic)) [
      | inl found ↦ (
        some (record {
          version = read_word hdr 1;
          blocks = read_word hdr 2;
          load = read_word hdr 3;
          total = read_word hdr 4;
        }),
        rw (long, boot_header, found) refl,
      )
      | inr other ↦ (none, rw (long, boot_header, other) refl)
    ]

-- On a device whose reads give what it holds: after `cmd_partition` reports success for a card of
-- `total` sectors, `cmd_inspect` of that card, if it reaches to the boot header, returns a report: a valid signature, the kernel's partition, and
-- behind it the filesystem's partition, which takes the rest of the card.
pub cmd_inspect-cmd_partition :
    {S : Type 0} (device : Device S) (contents : S → List ℕ) (s t : S) (total : ℕ)
    (confirmed : Bool)
    → IsReadable device contents
    → hdr_lba * block + 20 ≤ length (contents t)
    → cmd_partition device s total confirmed ≡ verified t
    → (report : Report) × (cmd_inspect device t ≡ some report)
      × (report.sig_ok ≡ true)
      × (report.partitions ≡ card_partitions (total - rootfs_part_lba))
      × (rootfs_part_lba ≤ total)
unfolding cmd_partition cmd_inspect
cmd_inspect-cmd_partition {S = S} device contents s t total confirmed readable long e =
    elim (Bool-cases confirmed) [
      | inr refused ↦
          let stop : cmd_partition device s total confirmed ≡ exit_refused =
            rw (readable.reads s 0 block, cmd_partition, refused) refl in
          absurd (cc)
      | inl agreed ↦ elim (Option-cases (make_mbr total)) [
        | inl failed ↦
            let stop : cmd_partition device s total confirmed ≡ exception =
              rw (readable.reads s 0 block, cmd_partition, agreed, failed) refl in
            absurd (cc)
        | inr (mbr, made) ↦
            let puts : cmd_partition device s total confirmed ≡ check_put device s 0 mbr =
              rw (readable.reads s 0 block, cmd_partition, agreed, made) refl in
            let (fits, small, mbr_eq) = make_mbr-inv total mbr made in
            let count = total - rootfs_part_lba in
            let (first, second, mark, mbr_length) = mbr_of-marks count in
            let stored = check_put-verified device contents s t 0 mbr readable (sym puts ∙ e) in
            let block0 : take block (contents t) ≡ mbr_of count =
              ap (λ (n : ℕ). take n (contents t)) (sym (ap length mbr_eq ∙ mbr_length))
              ∙ stored
              ∙ mbr_eq in
            let hdr = take block (drop (hdr_lba * block) (contents t)) in
            let hdr_long : 20 ≤ length hdr = omega (
              arith,
              length-take block (drop (hdr_lba * block) (contents t)),
              length-drop (hdr_lba * block) (contents t),
            ) in
            let (boot, parsed) = boot_header-Returns hdr hdr_long in
            (
              record { sig_ok = true; partitions = card_partitions count; boot = boot },
              rw
                  (
                    readable.reads t 0 block,
                    cmd_inspect,
                    ◌>>=◌,
                    block0,
                    first,
                    second,
                    list_partitions-mbr_of count small,
                    readable.reads t (hdr_lba * block) block,
                    parsed,
                    mark,
                  )
                  refl,
              refl,
              refl,
              fits,
            )
      ]
    ]
