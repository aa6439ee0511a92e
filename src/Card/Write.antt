-- ===== src/Card/Write.antt =====
-- `cmd_write` of tools/sdkernel.py.
use koti.Base.{
  ℕ, suc, ◌+◌, ◌*◌, Option, none, some, Bool, true, false, ◌==◌, ◌>>=◌, List, [], ◌∷◌, ◌++◌, length,
}
use koti.Card.Payload.{built, empty_kernel, too_many_blocks, build_payload, hdr_lba, block}
use koti.Card.Device.{Device}

-- `a == b` on bytes.
unfoldable pub bytes_eq : List ℕ → List ℕ → Bool
bytes_eq [] [] = true
bytes_eq [] (y ∷ ys) = false
bytes_eq (x ∷ xs) [] = false
bytes_eq (x ∷ xs) (y ∷ ys) = elim (x == y) [ true ↦ bytes_eq xs ys | false ↦ false ]

-- `next(i for i in range(len(back)) if back[i] != wanted[i])`; `none` is the StopIteration of a `back`
-- that agrees as far as it goes, or an IndexError.
unfoldable pub first_difference : List ℕ → List ℕ → Option ℕ
first_difference [] ys = none
first_difference (x ∷ xs) [] = none
first_difference (x ∷ xs) (y ∷ ys) = elim (x == y) [
  | true ↦ (do i ← first_difference xs ys; some (suc i))
  | false ↦ some 0
]

-- How a command ends: with its message of success and the state of the device, with a SystemExit, or
-- with another exception.
pub data Outcome (S : Type 0) : Type 0 where
  verified : S → Outcome S
  exit_empty : Outcome S
  exit_too_many : ℕ → Outcome S
  exit_refused : Outcome S
  exit_not_whole : Outcome S
  exit_mismatch : ℕ → Outcome S
  exit_bad_card : Outcome S
  exception : Outcome S

-- The check of what was read back.
unfoldable pub compare_back : {S : Type 0} → List ℕ → S × List ℕ → Outcome S
compare_back wanted (s, back) = elim (bytes_eq back wanted) [
  | true ↦ verified s
  | false ↦ elim (first_difference back wanted) [ none ↦ exception | some i ↦ exit_mismatch i ]
]

module _ {S : Type 0} (device : Device S) where
  -- The two writes, one behind the other, and the read back; `none` is an OSError.
  unfoldable pub write_back : S → List ℕ → List ℕ → Option (S × List ℕ)
  write_back s hdr payload = do
    s ← device.write_at s (hdr_lba * block) hdr
    s ← device.write_at s (hdr_lba * block + length hdr) payload
    back ← device.read_at s (hdr_lba * block) (block + length payload)
    some (s, back)

  -- `confirmed` is the option `--yes`.
  unfoldable pub cmd_write : S → List ℕ → Bool → Outcome S
  cmd_write s kernel confirmed = elim (build_payload kernel) [
    | empty_kernel ↦ exit_empty
    | too_many_blocks blocks ↦ exit_too_many blocks
    | built hdr payload ↦ elim confirmed [
      | false ↦ exit_refused
      | true ↦ elim (write_back s hdr payload) [
        | none ↦ exception
        | some result ↦ compare_back (hdr ++ payload) result
      ]
    ]
  ]
