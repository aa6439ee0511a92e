-- ===== src/Card/Verified.antt =====
-- The contract of `cmd_write` of tools/sdkernel.py: what it says of the card is so, and it succeeds on a
-- card that works.
use koti.Base.{
  ℕ, ◌+◌, ◌*◌, ◌/◌, ◌<◌, ◌≤◌, ◌≡◌, refl, sym, ap, ◌∙◌, arith, none, some, Bool, true, ◌>>=◌, List,
  ◌++◌, length, take, drop, length-append, Option-cases, Bool-cases, inl, inr, ◌%◌, ◌^◌,
}
use koti.Card.Words.{words, sum}
use koti.Card.Payload.{
  build_payload, Built, built, empty_kernel, too_many_blocks, hdr_lba, block, padded, length-header,
  header, max_blocks,
}
use koti.Card.Firmware.{sd_load_kernel}
use koti.Card.Boots.{sd_load_kernel-Serves, build_payload-inv, build_payload-built}
use koti.Card.Device.{
  Device, IsReadable, IsWritable, overlay, overlay-overlay, length-overlay, take-drop-overlay,
}
use koti.Card.Write.{
  bytes_eq, verified, exit_mismatch, exit_empty, exit_too_many, exit_refused, exception, cmd_write,
  write_back, compare_back, first_difference,
}
use koti.Card.Compared.{bytes_eq-≡, bytes_eq_refl}
use koti.Card.Written.{card_block, card_block-header, card_block-Serves, Holds}

compare_back-verified :
    {S : Type 0} (wanted back : List ℕ) (s t : S)
    → compare_back wanted (s, back) ≡ verified t
    → (s ≡ t) × (back ≡ wanted)
unfolding compare_back
compare_back-verified wanted back s t e = elim (Bool-cases (bytes_eq back wanted)) [
  | inl same ↦
      let done : compare_back wanted (s, back) ≡ verified s = rw (same, compare_back) refl in
      (cc, bytes_eq-≡ back wanted same)
  | inr other ↦ elim (Option-cases (first_difference back wanted)) [
    | inl nothing ↦
        let done : compare_back wanted (s, back) ≡ exception =
          rw (other, compare_back, nothing) refl in
        absurd (cc)
    | inr (i, at) ↦
        let done : compare_back wanted (s, back) ≡ exit_mismatch i =
          rw (other, compare_back, at) refl in
        absurd (cc)
  ]
]

-- A card that holds what `build_payload` made boots.
pub Holds-boots :
    (kernel hdr payload card : List ℕ)
    → build_payload kernel ≡ built hdr payload
    → Holds card hdr payload
    → sd_load_kernel true (card_block card) ≡ some (words (padded kernel))
Holds-boots kernel hdr payload card made holds =
    let (hdr_eq, payload_eq, some_block, few) = build_payload-inv kernel hdr payload made in
    let hdr_length : length hdr ≡ block =
      ap length hdr_eq ∙ length-header (length payload / block) (sum (words payload) % 2 ^ 32) in
    let (loaded, same) =
      sd_load_kernel-Serves kernel hdr payload (card_block card) made
        (card_block-header card hdr payload holds hdr_length)
        (card_block-Serves card hdr payload holds hdr_length (length payload / block)
          (omega arith)) in
    loaded ∙ ap (λ (l : List ℕ). some (words l)) same

module _ {S : Type 0} (device : Device S) (contents : S → List ℕ) where
  write_back-reads :
      (s t : S) (hdr payload back : List ℕ)
      → IsReadable device contents
      → write_back device s hdr payload ≡ some (t, back)
      → back ≡ take (block + length payload) (drop (hdr_lba * block) (contents t))
  unfolding write_back
  write_back-reads s t hdr payload back readable e =
      elim (Option-cases (device.write_at s (hdr_lba * block) hdr)) [
        | inl stop ↦
            absurd (
              let failed : write_back device s hdr payload ≡ none = rw (stop, write_back) refl in
              cc)
        | inr (s1, first) ↦
            elim (Option-cases (device.write_at s1 (hdr_lba * block + length hdr) payload)) [
              | inl stop ↦ absurd (
                  let failed : write_back device s hdr payload ≡ none =
                    rw (first, write_back, ◌>>=◌, stop) refl in
                  cc)
              | inr (s2, second) ↦
                  let read = take (block + length payload) (drop (hdr_lba * block) (contents s2)) in
                  let done : write_back device s hdr payload ≡ some (s2, read) =
                    rw
                      (
                        first,
                        write_back,
                        ◌>>=◌,
                        second,
                        readable.reads s2 (hdr_lba * block) (block + length payload),
                      )
                      refl in
                  let state : s2 ≡ t = cc in
                  let bytes : read ≡ back = cc in
                  sym bytes
                  ∙ ap
                      (λ (u : S).
                        take (block + length payload) (drop (hdr_lba * block) (contents u)))
                      state
            ]
      ]

  pub cmd_write-Holds :
      (s t : S) (kernel : List ℕ) (confirmed : Bool)
      → IsReadable device contents
      → cmd_write device s kernel confirmed ≡ verified t
      → (hdr payload : List ℕ) × (build_payload kernel ≡ built hdr payload)
        × Holds (contents t) hdr payload
        × (payload ≡ padded kernel)
  unfolding cmd_write
  cmd_write-Holds s t kernel confirmed readable e = by_build (build_payload kernel) refl
    where
      by_build :
          (b : Built)
          → build_payload kernel ≡ b
          → (hdr payload : List ℕ) × (build_payload kernel ≡ built hdr payload)
            × Holds (contents t) hdr payload
            × (payload ≡ padded kernel)
      by_build empty_kernel eb =
          let done : cmd_write device s kernel confirmed ≡ exit_empty = rw (eb, cmd_write) refl in
          absurd (cc)
      by_build (too_many_blocks n) eb =
          let done : cmd_write device s kernel confirmed ≡ exit_too_many n =
            rw (eb, cmd_write) refl in
          absurd (cc)
      by_build (built hdr payload) eb = elim (Bool-cases confirmed) [
        | inr refused ↦
            let done : cmd_write device s kernel confirmed ≡ exit_refused =
              rw (eb, cmd_write, refused) refl in
            absurd (cc)
        | inl agreed ↦ elim (Option-cases (write_back device s hdr payload)) [
          | inl failed ↦
              let done : cmd_write device s kernel confirmed ≡ exception =
                rw (eb, cmd_write, agreed, failed) refl in
              absurd (cc)
          | inr ((u, back), written) ↦
              let done : cmd_write device s kernel confirmed
                  ≡ compare_back (hdr ++ payload) (u, back) =
                rw (eb, cmd_write, agreed, written) refl in
              let (state, same) = compare_back-verified (hdr ++ payload) back u t (sym done ∙ e) in
              let read = write_back-reads s u hdr payload back readable written in
              (
                hdr,
                payload,
                eb,
                ap (λ (v : S). take (block + length payload) (drop (hdr_lba * block) (contents v)))
                      (sym state)
                    ∙ sym read
                    ∙ same,
                (build_payload-inv kernel hdr payload eb).1,
              )
        ]
      ]

  -- When `cmd_write` reports that it wrote and verified a kernel, the firmware that reads the card
  -- loads the kernel, padded with zeros to whole blocks. No write need have done what it was asked to;
  -- only what is read must be what the card holds.
  pub cmd_write-boots :
      (s t : S) (kernel : List ℕ) (confirmed : Bool)
      → IsReadable device contents
      → cmd_write device s kernel confirmed ≡ verified t
      → sd_load_kernel true (card_block (contents t)) ≡ some (words (padded kernel))
  cmd_write-boots s t kernel confirmed readable e =
      let (hdr, payload, made, holds, _) = cmd_write-Holds s t kernel confirmed readable e in
      Holds-boots kernel hdr payload (contents t) made holds

  -- On a device that reads back what is written, and is large enough, a confirmed `cmd_write` of a
  -- kernel that has a byte and fits the firmware's limit succeeds and leaves
  -- the device as long as it was.
  pub cmd_write-verified :
      (s : S) (kernel : List ℕ)
      → IsReadable device contents
      → IsWritable device contents
      → 0 < length kernel
      → length kernel ≤ block * max_blocks
      → hdr_lba * block + block + length (padded kernel) ≤ length (contents s)
      → (t : S) × (cmd_write device s kernel true ≡ verified t)
        × (length (contents t) ≡ length (contents s))
  unfolding cmd_write write_back compare_back
  cmd_write-verified s kernel readable writable some_byte fits room =
      let payload = padded kernel in
      let hdr = header (length payload / block) (sum (words payload) % 2 ^ 32) in
      let made : build_payload kernel ≡ built hdr payload =
        build_payload-built kernel some_byte fits in
      let hdr_length : length hdr ≡ block =
        length-header (length payload / block) (sum (words payload) % 2 ^ 32) in
      let (u, first, after_first) =
        writable.writes s (hdr_lba * block) hdr (omega (arith, hdr_length)) in
      let (t, second, after_second) = writable.writes u (hdr_lba * block + length hdr) payload (
        omega (
          arith,
          hdr_length,
          ap length after_first,
          length-overlay (hdr_lba * block) hdr (contents s) (omega (arith, hdr_length)),
        )) in
      let whole : contents t ≡ overlay (hdr_lba * block) (hdr ++ payload) (contents s) =
        after_second
        ∙ ap (overlay (hdr_lba * block + length hdr) payload) after_first
        ∙ overlay-overlay (hdr_lba * block) hdr payload (contents s) (omega (arith, hdr_length)) in
      let len : length (hdr ++ payload) ≡ block + length payload =
        omega (arith, hdr_length, length-append hdr payload) in
      let back : take (block + length payload) (drop (hdr_lba * block) (contents t))
          ≡ hdr ++ payload =
        ap (λ (n : ℕ). take n (drop (hdr_lba * block) (contents t))) (sym len)
        ∙ ap (λ (l : List ℕ). take (length (hdr ++ payload)) (drop (hdr_lba * block) l)) whole
        ∙ take-drop-overlay (hdr_lba * block) (hdr ++ payload) (contents s) (omega (arith, len)) in
      let written : write_back device s hdr payload ≡ some (t, hdr ++ payload) =
        rw
          (
            first,
            write_back,
            ◌>>=◌,
            second,
            readable.reads t (hdr_lba * block) (block + length payload),
            back,
          )
          refl in
      (
        t,
        rw (made, cmd_write, written, compare_back, bytes_eq_refl (hdr ++ payload)) refl,
        ap length whole
            ∙ length-overlay (hdr_lba * block) (hdr ++ payload) (contents s) (omega (arith, len)),
      )
