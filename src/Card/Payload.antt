-- ===== src/Card/Payload.antt =====
-- `build_payload` of tools/sdkernel.py: the header block and the padded kernel. The file's bytes are
-- numbers below 256.
use koti.Base.{
  ℕ, ◌+◌, ◌-◌, ◌*◌, ◌/◌, ◌%◌, ◌^◌, ◌<◌, ◌≡◌, arith, ◌==◌, ltb, List, ◌++◌, if◌then◌else◌, length,
  replicate, length-append, length-replicate,
}
use koti.Base.Bytes.{to_le, from_le-to_le}
use koti.Card.Words.{words, sum, read_word}

abbrev pub magic : ℕ
magic = 1230262091

abbrev pub version : ℕ
version = 1

abbrev pub hdr_lba : ℕ
hdr_lba = 2048

abbrev pub load_addr : ℕ
load_addr = 20971520

abbrev pub block : ℕ
block = 512

abbrev pub max_blocks : ℕ
max_blocks = 32768

-- `b"\x00" * n`.
unfoldable pub zeros : ℕ → List ℕ
zeros n = replicate n 0

pub length-zeros : (n : ℕ) → length (zeros n) ≡ n
unfolding zeros
length-zeros n = length-replicate n 0

pub data Built : Type 0 where
  built : List ℕ → List ℕ → Built
  empty_kernel : Built
  too_many_blocks : ℕ → Built

-- `kernel + b"\x00" * ((-len(kernel)) % BLOCK)`.
unfoldable pub padded : List ℕ → List ℕ
padded kernel = kernel ++ zeros ((block - length kernel % block) % block)

-- `struct.pack("<5I", ...)`, padded to a block. Each of the five fits 32 bits.
unfoldable pub header : ℕ → ℕ → List ℕ
header blocks total =
    (to_le 4 magic ++ (to_le 4 version ++ (to_le 4 blocks ++ (to_le 4 load_addr ++ to_le 4 total))))
    ++ zeros (block - 20)

unfoldable pub build_payload : List ℕ → Built
build_payload kernel =
    let payload = padded kernel in
    let blocks = length payload / block in
    if blocks == 0
    then empty_kernel
    else if ltb max_blocks blocks
    then too_many_blocks blocks
    else built (header blocks (sum (words payload) % 2 ^ 32)) payload

pub length-padded :
    (kernel : List ℕ) → length (padded kernel) ≡ block * ((length kernel + (block - 1)) / block)
unfolding padded
length-padded kernel =
    let pad = (block - length kernel % block) % block in
    omega (arith, length-append kernel (zeros pad), length-zeros pad)

pub length-header : (blocks total : ℕ) → length (header blocks total) ≡ block
unfolding header to_le
length-header blocks total = omega (
  arith,
  length-append
      (to_le 4 magic
        ++ (to_le 4 version ++ (to_le 4 blocks ++ (to_le 4 load_addr ++ to_le 4 total))))
      (zeros (block - 20)),
  length-zeros (block - 20),
)

-- The five fields as `struct.unpack` and the firmware read them.
pub record HasFields (bytes : List ℕ) (blocks total : ℕ) : Type 0 where
  pub magic_eq : read_word bytes 0 ≡ magic
  pub version_eq : read_word bytes 1 ≡ version
  pub blocks_eq : read_word bytes 2 ≡ blocks
  pub load_eq : read_word bytes 3 ≡ load_addr
  pub total_eq : read_word bytes 4 ≡ total

pub header-HasFields :
    (blocks total : ℕ)
    → blocks < 2 ^ 32
    → total < 2 ^ 32
    → HasFields (header blocks total) blocks total
unfolding header to_le read_word
header-HasFields blocks total hb ht = record {
  magic_eq = from_le-to_le 4 magic (omega arith);
  version_eq = from_le-to_le 4 version (omega arith);
  blocks_eq = from_le-to_le 4 blocks (omega arith);
  load_eq = from_le-to_le 4 load_addr (omega arith);
  total_eq = from_le-to_le 4 total (omega arith);
}
