-- ===== src/Card/Kept.antt =====
-- `cmd_writefs` of tools/sdkernel.py leaves the kernel on the card alone.
use koti.Base.{
  ℕ, ◌+◌, ◌*◌, ◌/◌, ◌≤◌, ◌≡◌, refl, sym, ap, ◌∙◌, arith, some, Bool, true, ◌==◌, ◌>>=◌, ◌%◌, List,
  ◌++◌, length, take, drop, take-drop-take, take-append, length-take, Bool-cases, inl, inr,
}
use koti.Card.Words.{words}
use koti.Card.Payload.{block, padded, hdr_lba, length-padded}
use koti.Card.Device.{Device, IsReadable, IsWritable, overlay, take-drop-overlay, length-overlay}
use koti.Card.Firmware.{sd_load_kernel}
use koti.Card.Write.{bytes_eq, verified, exit_not_whole, exit_refused, exit_bad_card, cmd_write}
use koti.Card.Compared.{bytes_eq_refl}
use koti.Card.Written.{card_block, Holds}
use koti.Card.Verified.{cmd_write-Holds, Holds-boots}
use koti.Card.Table.{put, check_put, cmd_writefs, rootfs_part_lba}

-- What stands before the overlay stays.
take-drop-overlay_before :
    (k n off : ℕ) (bytes xs : List ℕ)
    → k + n ≤ off
    → off ≤ length xs
    → take n (drop k (overlay off bytes xs)) ≡ take n (drop k xs)
unfolding overlay
take-drop-overlay_before k n off bytes xs before inside =
    let tail = bytes ++ drop (off + length bytes) xs in
    let prefix : take off (take off xs ++ tail) ≡ take off xs =
      ap (λ (m : ℕ). take m (take off xs ++ tail)) (omega (arith, length-take off xs))
      ∙ take-append (take off xs) tail in
    sym (take-drop-take k n off (take off xs ++ tail) before)
    ∙ ap (λ (l : List ℕ). take n (drop k l)) prefix
    ∙ take-drop-take k n off xs before

module _ {S : Type 0} (device : Device S) (contents : S → List ℕ) where
  check_put-contents :
      (s t : S) (off : ℕ) (bytes : List ℕ)
      → IsReadable device contents
      → IsWritable device contents
      → off + length bytes ≤ length (contents s)
      → check_put device s off bytes ≡ verified t
      → contents t ≡ overlay off bytes (contents s)
  unfolding check_put put
  check_put-contents s t off bytes readable writable room e =
      let (u, written, after) = writable.writes s off bytes room in
      let back = take (length bytes) (drop off (contents u)) in
      let put_eq : put device s off bytes ≡ some (u, back) =
        rw (written, put, ◌>>=◌, readable.reads u off (length bytes)) refl in
      elim (Bool-cases (bytes_eq back bytes)) [
        | inr other ↦
            let bad : check_put device s off bytes ≡ exit_bad_card =
              rw (put_eq, check_put, other) refl in
            absurd (cc)
        | inl same ↦
            let good : check_put device s off bytes ≡ verified u =
              rw (put_eq, check_put, same) refl in
            let state : u ≡ t = cc in ap contents (sym state) ∙ after
      ]

  pub check_put-succeeds :
      (s : S) (off : ℕ) (bytes : List ℕ)
      → IsReadable device contents
      → IsWritable device contents
      → off + length bytes ≤ length (contents s)
      → (t : S) × (check_put device s off bytes ≡ verified t)
        × (length (contents t) ≡ length (contents s))
  unfolding check_put put
  check_put-succeeds s off bytes readable writable room =
      let (u, written, after) = writable.writes s off bytes room in
      let back : take (length bytes) (drop off (contents u)) ≡ bytes =
        ap (λ (l : List ℕ). take (length bytes) (drop off l)) after
        ∙ take-drop-overlay off bytes (contents s) room in
      let put_eq : put device s off bytes ≡ some (u, bytes) =
        rw (written, put, ◌>>=◌, readable.reads u off (length bytes), back) refl in
      (
        u,
        rw (put_eq, check_put, bytes_eq_refl bytes) refl,
        ap length after ∙ length-overlay off bytes (contents s) room,
      )

  cmd_writefs-contents :
      (s t : S) (image : List ℕ) (confirmed : Bool)
      → IsReadable device contents
      → IsWritable device contents
      → rootfs_part_lba * block + length image ≤ length (contents s)
      → cmd_writefs device s image confirmed ≡ verified t
      → contents t ≡ overlay (rootfs_part_lba * block) image (contents s)
  unfolding cmd_writefs
  cmd_writefs-contents s t image confirmed readable writable room e =
      elim (Bool-cases (length image % block == 0)) [
        | inr ragged ↦
            let stop : cmd_writefs device s image confirmed ≡ exit_not_whole =
              rw (ragged, cmd_writefs) refl in
            absurd (cc)
        | inl whole ↦ elim (Bool-cases confirmed) [
          | inr refused ↦
              let stop : cmd_writefs device s image confirmed ≡ exit_refused =
                rw (whole, cmd_writefs, refused) refl in
              absurd (cc)
          | inl agreed ↦
              let puts : cmd_writefs device s image confirmed
                  ≡ check_put device s (rootfs_part_lba * block) image =
                rw (whole, cmd_writefs, agreed) refl in
              check_put-contents s t (rootfs_part_lba * block) image readable writable room
                (sym puts ∙ e)
        ]
      ]

  -- On a device that reads back what is written: a kernel of at most 16383 blocks, the size of its
  -- partition less the header, that `cmd_write` verified still boots after `cmd_writefs` has put a
  -- filesystem that fits the card into the second partition and verified it.
  pub cmd_writefs-boots :
      (s t u : S) (kernel image : List ℕ) (confirmed agreed : Bool)
      → IsReadable device contents
      → IsWritable device contents
      → length kernel ≤ 16383 * block
      → cmd_write device s kernel confirmed ≡ verified t
      → rootfs_part_lba * block + length image ≤ length (contents t)
      → cmd_writefs device t image agreed ≡ verified u
      → sd_load_kernel true (card_block (contents u)) ≡ some (words (padded kernel))
  cmd_writefs-boots s t u kernel image confirmed agreed readable writable small wrote room put_fs =
      let (hdr, payload, made, holds, payload_eq) =
        cmd_write-Holds device contents s t kernel confirmed readable wrote in
      let after = cmd_writefs-contents t u image agreed readable writable room put_fs in
      let len : length payload ≡ block * ((length kernel + 511) / block) =
        ap length payload_eq ∙ length-padded kernel in
      let kept : Holds (contents u) hdr payload =
        ap (λ (l : List ℕ). take (block + length payload) (drop (hdr_lba * block) l)) after
        ∙ take-drop-overlay_before (hdr_lba * block) (block + length payload)
            (rootfs_part_lba * block) image (contents t) (omega (arith, len)) (omega arith)
        ∙ holds in
      Holds-boots kernel hdr payload (contents u) made kept
