-- ===== src/Card/Firmware.antt =====
-- `sd_load_kernel` of sw/sbi/sdboot.c. `answer lba` is what the controller has in its buffer when
-- SD_DONE rises for a read of that block, `none` if it does not rise within the bounded wait; the
-- SD_DATA register gives the buffer's words, the low byte first. `ready` is whether the card came up.
use koti.Base.{
  ℕ, zero, suc, ◌+◌, Option, none, some, Bool, true, false, not, ◌==◌, ltb, ◌>>=◌, ◌&&◌, List, [],
  ◌++◌,
}
use koti.Card.Words.{words, read_word, add_words}
use koti.Card.Payload.{magic, version, hdr_lba, load_addr, max_blocks}

-- The header checks: each failure returns 0.
unfoldable pub accepts : List ℕ → Bool
accepts hdr =
    (read_word hdr 0 == magic)
    && (read_word hdr 1 == version)
    && not (read_word hdr 2 == 0)
    && not (ltb max_blocks (read_word hdr 2))
    && (read_word hdr 3 == load_addr)

-- The loop from block `b` on: the words stored from `dst` on, and the sum.
unfoldable pub load_blocks : (ℕ → Option (List ℕ)) → ℕ → ℕ → ℕ → Option (List ℕ × ℕ)
load_blocks answer zero b total = some ([], total)
load_blocks answer (suc n) b total = do
  bytes ← answer (hdr_lba + 1 + b)
  (stored, total) ← load_blocks answer n (b + 1) (add_words total (words bytes))
  some (words bytes ++ stored, total)

-- What is in memory from the load address on when the result is 1; `none` is the result 0.
unfoldable pub sd_load_kernel : Bool → (ℕ → Option (List ℕ)) → Option (List ℕ)
sd_load_kernel ready answer = elim ready [
  | false ↦ none
  | true ↦ do
    hdr ← answer hdr_lba
    elim (accepts hdr) [
      | false ↦ none
      | true ↦ do
        (stored, total) ← load_blocks answer (read_word hdr 2) 0 0
        elim (total == read_word hdr 4) [ true ↦ some stored | false ↦ none ]
    ]
]
