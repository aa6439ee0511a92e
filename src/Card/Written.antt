-- ===== src/Card/Written.antt =====
-- What `cmd_write` of tools/sdkernel.py leaves on the card, and what the firmware of sw/sbi/sdboot.c
-- makes of it.
use koti.Base.{
  ℕ, ◌+◌, ◌*◌, ◌≤◌, ◌≡◌, sym, ap, ◌∙◌, arith, Option, none, some, true, leb, List, ◌++◌, length,
  take, drop, length-append, length-take, length-drop, drop-drop, take-drop-take, take-take,
  take-append, drop-append, if◌then◌else◌,
}
use koti.Card.Payload.{hdr_lba, block}
use koti.Card.Boots.{Serves}

-- The answer of a card that holds these bytes to a read of a block.
unfoldable pub card_block : List ℕ → ℕ → Option (List ℕ)
card_block card lba =
    if leb ((lba + 1) * block) (length card)
    then some (take block (drop (lba * block) card))
    else none

leb-≤ : (a b : ℕ) → a ≤ b → leb a b ≡ true
leb-≤ a b h = ground arith

take-prefix : (k : ℕ) (xs ys : List ℕ) → length xs ≡ k → take k (xs ++ ys) ≡ xs
take-prefix k xs ys h = ap (λ (n : ℕ). take n (xs ++ ys)) (sym h) ∙ take-append xs ys

drop-prefix : (k : ℕ) (xs ys : List ℕ) → length xs ≡ k → drop k (xs ++ ys) ≡ ys
drop-prefix k xs ys h = ap (λ (n : ℕ). drop n (xs ++ ys)) (sym h) ∙ drop-append xs ys

-- The card holds the header and the kernel where the firmware looks for them.
abbrev pub Holds : List ℕ → List ℕ → List ℕ → Type 0
Holds card hdr payload =
    take (block + length payload) (drop (hdr_lba * block) card) ≡ hdr ++ payload

module _ (card hdr payload : List ℕ) (holds : Holds card hdr payload)
    (hdr_length : length hdr ≡ block) where
  card-long : hdr_lba * block + block + length payload ≤ length card
  card-long =
      let len : length (take (block + length payload) (drop (hdr_lba * block) card))
          ≡ length (hdr ++ payload) =
        ap length holds in
      omega (
        arith,
        len,
        hdr_length,
        length-append hdr payload,
        length-take (block + length payload) (drop (hdr_lba * block) card),
        length-drop (hdr_lba * block) card,
      )

  pub card_block-header : card_block card hdr_lba ≡ some hdr
  unfolding card_block
  card_block-header =
      let inside : leb ((hdr_lba + 1) * block) (length card) ≡ true =
        leb-≤ _ _ (omega (arith, card-long)) in
      rw inside (
        ap some (
          sym (take-take block (block + length payload) (drop (hdr_lba * block) card) (omega arith))
          ∙ ap (take block) holds
          ∙ take-prefix block hdr payload hdr_length))

  pub card_block-Serves :
      (n : ℕ) → block * n ≤ length payload → Serves (card_block card) (hdr_lba + 1) n payload
  unfolding card_block
  card_block-Serves n fits b h =
      let inside : leb ((hdr_lba + 1 + b + 1) * block) (length card) ≡ true =
        leb-≤ _ _ (omega (arith, card-long)) in
      let at : (hdr_lba + 1 + b) * block ≡ hdr_lba * block + (block + block * b) = omega arith in
      rw (inside, at)
        (ap some (
          ap (take block) (sym (drop-drop (hdr_lba * block) (block + block * b) card))
          ∙ sym (
              take-drop-take (block + block * b) block (block + length payload)
                (drop (hdr_lba * block) card) (omega arith))
          ∙ ap (λ (l : List ℕ). take block (drop (block + block * b) l)) holds
          ∙ ap (take block) (sym (drop-drop block (block * b) (hdr ++ payload)))
          ∙ ap (λ (l : List ℕ). take block (drop (block * b) l))
              (drop-prefix block hdr payload hdr_length)))
