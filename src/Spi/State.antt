-- ===== src/Spi/State.antt =====
-- The state of `SpiMem` of test/spimem.py, the bench's flash and PSRAM, with `deselect` and `_begin_read`.
use koti.Base.{ℕ, ◌%◌, Option, none, some, Bool, true, false, List, length, replicate, get_elem?}

-- The strings of the attribute `phase`.
pub data Phase : Type 0 where
  in_cmd : Phase
  in_addr_s : Phase
  in_addr_q : Phase
  in_dummy : Phase
  in_wr_s : Phase
  in_wr_q : Phase
  in_rd_s : Phase
  in_rd_q : Phase
  in_ignore : Phase

-- `bit_idx` does not exist before the first `_begin_read`; it is not read before either.
pub record SpiMem : Type 0 where
  pub mem : List ℕ
  pub writable : Bool
  pub phase : Phase
  pub sh : ℕ
  pub n : ℕ
  pub cmd : Option ℕ
  pub addr : ℕ
  pub dummy_left : ℕ
  pub nib_idx : ℕ
  pub bit_idx : ℕ
  pub cur : ℕ
  pub out_mask : ℕ
  pub out_val : ℕ

unfoldable pub deselect : SpiMem → SpiMem
deselect s = record s {
  phase = in_cmd;
  sh = 0;
  n = 0;
  cmd = none;
  addr = 0;
  dummy_left = 0;
  nib_idx = 0;
  cur = 0;
  out_mask = 0;
  out_val = 0;
}

-- `SpiMem(size, writable)`.
unfoldable pub init : ℕ → Bool → SpiMem
init size writable = deselect (record {
  mem = replicate size 0;
  writable = writable;
  phase = in_cmd;
  sh = 0;
  n = 0;
  cmd = none;
  addr = 0;
  dummy_left = 0;
  nib_idx = 0;
  bit_idx = 0;
  cur = 0;
  out_mask = 0;
  out_val = 0;
})

unfoldable pub begin_read : Bool → SpiMem → SpiMem
begin_read quad s = record s {
  phase = elim quad [ true ↦ in_rd_q | false ↦ in_rd_s ];
  nib_idx = 2;
  bit_idx = 8;
}

-- `self.mem[self.addr % len(self.mem)]`, for a memory that is not empty.
unfoldable pub byte_at : List ℕ → ℕ → ℕ
byte_at mem addr = elim (get_elem? mem (addr % length mem)) [ none ↦ 0 | some b ↦ b ]
