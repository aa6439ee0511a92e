-- ===== src/Card/Boots.antt =====
-- A card that carries the bytes of `build_payload` boots: the firmware accepts it and loads the kernel.
use koti.Base.{
  ℕ, zero, suc, ◌+◌, ◌-◌, ◌*◌, ◌/◌, ◌%◌, ◌^◌, ◌<◌, ◌≤◌, ◌≡◌, refl, sym, ap, ◌∙◌, arith, Option,
  some, true, false, ◌==◌, ltb, ◌>>=◌, List, [], ◌∷◌, ◌++◌, length, take, drop, length-take,
  length-drop, append-take-drop, drop-drop, Bool-cases, inl, inr, subst,
}
use koti.Card.Words.{words, sum, add_words, add_words_lem, sum-append, words-append}
use koti.Card.Payload.{
  hdr_lba, max_blocks, block, padded, header, HasFields, header-HasFields, length-padded,
  build_payload, built, empty_kernel, too_many_blocks,
}
use koti.Card.Firmware.{accepts, load_blocks, sd_load_kernel}

-- The blocks from `lba` on hold `bytes`.
abbrev pub Serves : (ℕ → Option (List ℕ)) → ℕ → ℕ → List ℕ → Type 0
Serves answer lba n bytes =
    (b : ℕ) → b < n → answer (lba + b) ≡ some (take block (drop (block * b) bytes))

accepts-header :
    (hdr : List ℕ) (blocks total : ℕ)
    → HasFields hdr blocks total
    → 0 < blocks
    → blocks ≤ max_blocks
    → accepts hdr ≡ true
unfolding accepts
accepts-header hdr blocks total fields some_block few =
    rw (fields.magic_eq, fields.version_eq, fields.blocks_eq, fields.load_eq) (ground arith)

words-split :
    (bytes : List ℕ)
    → block ≤ length bytes
    → words bytes ≡ words (take block bytes) ++ words (drop block bytes)
words-split bytes h =
    ap words (sym (append-take-drop block bytes))
    ∙ words-append 128 (take block bytes) (drop block bytes)
        (omega (arith, length-take block bytes))

pub build_payload-inv :
    (kernel hdr payload : List ℕ)
    → build_payload kernel ≡ built hdr payload
    → (hdr ≡ header (length payload / block) (sum (words payload) % 2 ^ 32))
      × (payload ≡ padded kernel)
      × (0 < length payload / block)
      × (length payload / block ≤ max_blocks)
unfolding build_payload
build_payload-inv kernel hdr payload e = elim (Bool-cases (length (padded kernel) / block == 0)) [
  | inl nothing ↦
      let stops : build_payload kernel ≡ empty_kernel = rw (nothing, build_payload) refl in
      absurd (cc)
  | inr some_block ↦ elim (Bool-cases (ltb max_blocks (length (padded kernel) / block))) [
    | inl many ↦
        let stops : build_payload kernel ≡ too_many_blocks (length (padded kernel) / block) =
          rw (some_block, build_payload, many) refl in
        absurd (cc)
    | inr few ↦
        let made : build_payload kernel
            ≡ built (header (length (padded kernel) / block) (sum (words (padded kernel)) % 2 ^ 32))
                (padded kernel) =
          rw (some_block, build_payload, few) refl in
        let payload_eq : padded kernel ≡ payload = cc in
        let hdr_eq : header (length (padded kernel) / block) (sum (words (padded kernel)) % 2 ^ 32)
            ≡ hdr =
          cc in
        (
          rw (sym payload_eq) (sym hdr_eq),
          sym payload_eq,
          rw (sym payload_eq) (ground arith),
          rw (sym payload_eq) (ground arith),
        )
  ]
]

-- A kernel that has a byte and fits gets its header.
pub build_payload-built :
    (kernel : List ℕ)
    → 0 < length kernel
    → length kernel ≤ block * max_blocks
    → build_payload kernel
      ≡ built
          (header (length (padded kernel) / block) (sum (words (padded kernel)) % 2 ^ 32))
          (padded kernel)
unfolding build_payload
build_payload-built kernel some_byte fits =
    let len : length (padded kernel) ≡ block * ((length kernel + (block - 1)) / block) =
      length-padded kernel in
    let blocks : length (padded kernel) / block ≡ (length kernel + (block - 1)) / block =
      omega (arith, len) in
    let some_block : ((length kernel + (block - 1)) / block == 0) ≡ false = ground arith in
    let few : ltb max_blocks ((length kernel + (block - 1)) / block) ≡ false = ground arith in
    rw (blocks, build_payload, some_block, few) refl

load_blocks-Serves :
    (answer : ℕ → Option (List ℕ)) (n b total : ℕ) (bytes : List ℕ)
    → length bytes ≡ block * n
    → total < 2 ^ 32
    → Serves answer (hdr_lba + 1 + b) n bytes
    → load_blocks answer n b total ≡ some (words bytes, (total + sum (words bytes)) % 2 ^ 32)
unfolding load_blocks words sum
load_blocks-Serves answer zero b total [] len small serves =
    ap (λ (t : ℕ). some ([], t)) (omega arith)
load_blocks-Serves answer zero b total (x ∷ bytes) len small serves = absurd (omega arith)
load_blocks-Serves answer (suc n) b total bytes len small serves =
    let a = words (take block bytes) in
    let z = words (drop block bytes) in
    let parts : words bytes ≡ a ++ z = words-split bytes (omega arith) in
    let sums : (add_words total a + sum z) % 2 ^ 32 ≡ (total + sum (words bytes)) % 2 ^ 32 =
      omega (arith, add_words_lem total a small, sum-append a z, ap sum parts) in
    let here : hdr_lba + 1 + b + 0 ≡ hdr_lba + 1 + b = omega arith in
    let first : answer (hdr_lba + 1 + b) ≡ some (take block bytes) =
      subst (λ (l : ℕ). answer l ≡ some (take block bytes)) here (serves 0 (omega arith)) in
    let rest : load_blocks answer n (b + 1) (add_words total a)
        ≡ some (z, (add_words total a + sum z) % 2 ^ 32) =
      load_blocks-Serves answer n (b + 1) (add_words total a) (drop block bytes)
        (omega (arith, length-drop block bytes)) (omega (arith, add_words_lem total a small))
        λ j h.
          let lba : hdr_lba + 1 + b + suc j ≡ hdr_lba + 1 + (b + 1) + j = omega arith in
          let off : block * suc j ≡ block + block * j = omega arith in
          sym (ap answer lba)
          ∙ serves (suc j) (omega arith)
          ∙ ap (λ (t : List ℕ). some (take block t))
              (ap (λ (k : ℕ). drop k bytes) off ∙ sym (drop-drop block (block * j) bytes)) in
    let result : (a ++ z, (add_words total a + sum z) % 2 ^ 32)
        ≡ (words bytes, (total + sum (words bytes)) % 2 ^ 32) =
      cc in
    rw (first, load_blocks, rest, ◌>>=◌) (ap some result)

-- The firmware on a card whose blocks from the header's on hold what `build_payload` made.
pub sd_load_kernel-Serves :
    (kernel hdr payload : List ℕ) (answer : ℕ → Option (List ℕ))
    → build_payload kernel ≡ built hdr payload
    → answer hdr_lba ≡ some hdr
    → Serves answer (hdr_lba + 1) (length payload / block) payload
    → (sd_load_kernel true answer ≡ some (words payload)) × (payload ≡ padded kernel)
unfolding sd_load_kernel
sd_load_kernel-Serves kernel hdr payload answer e at_header serves =
    let (made, payload_eq, some_block, few) = build_payload-inv kernel hdr payload e in
    let blocks = length payload / block in
    let total = sum (words payload) % 2 ^ 32 in
    let fields : HasFields hdr blocks total =
      rw made (header-HasFields blocks total (omega arith) (omega arith)) in
    let accepted = accepts-header hdr blocks total fields some_block few in
    let whole : length payload ≡ block * blocks =
      (let padded_len : length payload ≡ block * ((length kernel + (block - 1)) / block) =
          rw payload_eq (length-padded kernel) in
        omega arith) in
    let loaded = load_blocks-Serves answer blocks 0 0 payload whole (omega arith) serves in
    let checked : ((0 + sum (words payload)) % 2 ^ 32 == total) ≡ true = ground arith in
    (
      rw (at_header, ◌>>=◌, accepted, fields.blocks_eq, loaded, fields.total_eq, checked) refl,
      payload_eq,
    )
