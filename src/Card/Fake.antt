-- ===== src/Card/Fake.antt =====
-- `cmd_fake` and `cmd_build` of tools/sdkernel.py: the stand-in kernel, and the files made of a kernel.
use koti.Base.{
  ℕ, zero, suc, ◌+◌, ◌-◌, ◌*◌, ◌/◌, ◌%◌, ◌^◌, ◌<◌, ◌≤◌, ◌≡◌, refl, ap, arith, Option, none, some,
  List, [], ◌∷◌, ◌++◌, length, All, append-nil,
}
use koti.Base.Text.{Text, hex2}
use koti.Base.Bytes.{IsByte}
use koti.Card.Words.{words, sum}
use koti.Card.Payload.{
  block, padded, zeros, build_payload, built, empty_kernel, too_many_blocks, header, max_blocks,
}
use koti.Card.Boots.{build_payload-built}

-- The loop over the generator's state `x`.
unfoldable pub fake_loop : ℕ → ℕ → List ℕ
fake_loop zero x = []
fake_loop (suc n) x =
    let next = (x * 1103515245 + 12345) % 2 ^ 32 in next / 2 ^ 16 % 256 ∷ fake_loop n next

unfoldable pub cmd_fake : ℕ → List ℕ
cmd_fake blocks = fake_loop (blocks * block) 305419896

-- The lines of the `$readmemh` file.
unfoldable pub hex_text : List ℕ → Text
hex_text [] = []
hex_text (b ∷ bs) = hex2 b ++ (10 ∷ hex_text bs)

-- The contents of the `--img` file and of the `--hex` file; `none` is an exit.
unfoldable pub cmd_build : List ℕ → Option (List ℕ × Text)
cmd_build kernel = elim (build_payload kernel) [
  | built hdr payload ↦ some (hdr ++ payload, hex_text (hdr ++ payload))
  | empty_kernel ↦ none
  | too_many_blocks blocks ↦ none
]

fake_loop-bytes : (n x : ℕ) → (length (fake_loop n x) ≡ n) × All IsByte (fake_loop n x)
unfolding fake_loop
fake_loop-bytes zero x = (refl, tt)
fake_loop-bytes (suc n) x =
    let next = (x * 1103515245 + 12345) % 2 ^ 32 in
    let (len, bytes) = fake_loop-bytes n next in (ap suc len, (omega arith, bytes))

padded-whole : (kernel : List ℕ) (k : ℕ) → length kernel ≡ k * block → padded kernel ≡ kernel
unfolding padded zeros
padded-whole kernel k h =
    let pad : (block - length kernel % block) % block ≡ 0 = omega arith in
    rw pad (append-nil kernel)

-- A stand-in kernel of 1 to 32768 blocks is bytes, is not padded, and its files are its header and
-- itself: the header counts its blocks.
pub cmd_build-cmd_fake :
    (blocks : ℕ)
    → 0 < blocks
    → blocks ≤ max_blocks
    → All IsByte (cmd_fake blocks)
      × (cmd_build (cmd_fake blocks)
          ≡ some (
            header blocks (sum (words (cmd_fake blocks)) % 2 ^ 32) ++ cmd_fake blocks,
            hex_text (header blocks (sum (words (cmd_fake blocks)) % 2 ^ 32) ++ cmd_fake blocks),
          ))
unfolding cmd_build cmd_fake
cmd_build-cmd_fake blocks some_block few =
    let (len, bytes) = fake_loop-bytes (blocks * block) 305419896 in
    let made = build_payload-built (cmd_fake blocks) (omega arith) (omega arith) in
    let whole : padded (cmd_fake blocks) ≡ cmd_fake blocks =
      padded-whole (cmd_fake blocks) blocks len in
    let count : length (cmd_fake blocks) / block ≡ blocks = omega arith in
    (bytes, rw (made, cmd_build, whole, count) refl)
