-- ===== src/Spi/Edges.antt =====
-- The clock edges of `SpiMem` of test/spimem.py: `on_rise` and `on_fall`.
use koti.Base.{ℕ, ◌+◌, ◌-◌, ◌%◌, none, some, true, false, ◌==◌, ◌||◌, length, set, if◌then◌else◌}
use koti.Base.Bits.{◌<<◌, ◌>>◌, low_bits, bit_or}
use koti.Spi.State.{
  Phase, SpiMem, begin_read, byte_at, in_cmd, in_addr_s, in_addr_q, in_dummy, in_wr_s, in_wr_q,
  in_rd_s, in_rd_q, in_ignore,
}

-- `((self.sh << k) | io) & (2 ** w - 1)`.
unfoldable pub shift : ℕ → ℕ → ℕ → ℕ → ℕ
shift k w sh io = low_bits (bit_or (sh << k) io) w

unfoldable pub phase_of : ℕ → Phase
phase_of cmd =
    if (cmd == 3) || (cmd == 2) || (cmd == 107)
    then in_addr_s
    else if (cmd == 235) || (cmd == 56)
    then in_addr_q
    else in_ignore

unfoldable pub rise_cmd : SpiMem → ℕ → SpiMem
rise_cmd s bit =
    let sh = shift 1 8 s.sh bit in
    elim (s.n + 1 == 8) [
      | false ↦ record s { sh = sh; n = s.n + 1 }
      | true ↦ record s { cmd = some sh; sh = 0; n = 0; phase = phase_of sh }
    ]

-- What a complete serial address starts.
unfoldable pub start_serial : SpiMem → SpiMem
start_serial s = elim s.cmd [
  | none ↦ record s { phase = in_dummy; dummy_left = 8 }
  | some cmd ↦
      if cmd == 3
      then begin_read false s
      else if cmd == 2
      then record s { phase = in_wr_s }
      else record s { phase = in_dummy; dummy_left = 8 }
]

unfoldable pub rise_addr_s : SpiMem → ℕ → SpiMem
rise_addr_s s bit =
    let sh = shift 1 24 s.sh bit in
    elim (s.n + 1 == 24) [
      | false ↦ record s { sh = sh; n = s.n + 1 }
      | true ↦ start_serial (record s { addr = sh; sh = 0; n = 0 })
    ]

unfoldable pub start_quad : SpiMem → SpiMem
start_quad s = elim s.cmd [
  | none ↦ record s { phase = in_wr_q }
  | some cmd ↦
      if cmd == 235
      then record s { phase = in_dummy; dummy_left = 6 }
      else record s { phase = in_wr_q }
]

unfoldable pub rise_addr_q : SpiMem → ℕ → SpiMem
rise_addr_q s io =
    let sh = shift 4 24 s.sh io in
    elim (s.n + 1 == 6) [
      | false ↦ record s { sh = sh; n = s.n + 1 }
      | true ↦ start_quad (record s { addr = sh; sh = 0; n = 0 })
    ]

-- `dummy_left` is not zero in this phase.
unfoldable pub rise_dummy : SpiMem → SpiMem
rise_dummy s = elim (s.dummy_left - 1 == 0) [
  | true ↦ begin_read true (record s { dummy_left = s.dummy_left - 1 })
  | false ↦ record s { dummy_left = s.dummy_left - 1 }
]

-- A complete byte, stored where the device can be written.
unfoldable pub store_byte : SpiMem → ℕ → SpiMem
store_byte s sh = record s {
  mem = elim s.writable [ true ↦ set s.mem (s.addr % length s.mem) sh | false ↦ s.mem ];
  addr = s.addr + 1;
  sh = 0;
  n = 0;
}

-- A write of `total` clocks per byte and `k` bits per clock.
unfoldable pub rise_write : ℕ → ℕ → SpiMem → ℕ → SpiMem
rise_write k total s io =
    let sh = shift k 8 s.sh io in
    elim (s.n + 1 == total) [ false ↦ record s { sh = sh; n = s.n + 1 } | true ↦ store_byte s sh ]

unfoldable pub on_rise : SpiMem → ℕ → SpiMem
on_rise s io = elim s.phase [
  | in_cmd ↦ rise_cmd s (low_bits io 1)
  | in_addr_s ↦ rise_addr_s s (low_bits io 1)
  | in_addr_q ↦ rise_addr_q s io
  | in_dummy ↦ rise_dummy s
  | in_wr_s ↦ rise_write 1 8 s (low_bits io 1)
  | in_wr_q ↦ rise_write 4 2 s io
  | in_rd_s ↦ s
  | in_rd_q ↦ s
  | in_ignore ↦ s
]

unfoldable pub fetch_serial : SpiMem → SpiMem
fetch_serial s = elim (s.bit_idx == 8) [
  | true ↦ record s { cur = byte_at s.mem s.addr; addr = s.addr + 1; bit_idx = 0 }
  | false ↦ s
]

unfoldable pub put_bit : SpiMem → SpiMem
put_bit s = record s {
  out_mask = 2;
  out_val = low_bits (s.cur >> (7 - s.bit_idx)) 1 << 1;
  bit_idx = s.bit_idx + 1;
}

unfoldable pub fetch_quad : SpiMem → SpiMem
fetch_quad s = elim (s.nib_idx == 2) [
  | true ↦ record s { cur = byte_at s.mem s.addr; addr = s.addr + 1; nib_idx = 0 }
  | false ↦ s
]

unfoldable pub put_nibble : SpiMem → SpiMem
put_nibble s = record s {
  out_mask = 15;
  out_val = elim (s.nib_idx == 0) [ true ↦ low_bits (s.cur >> 4) 4 | false ↦ low_bits s.cur 4 ];
  nib_idx = s.nib_idx + 1;
}

unfoldable pub on_fall : SpiMem → SpiMem
on_fall s = elim s.phase [
  | in_rd_s ↦ put_bit (fetch_serial s)
  | in_rd_q ↦ put_nibble (fetch_quad s)
  | in_cmd ↦ record s { out_mask = 0; out_val = 0 }
  | in_addr_s ↦ record s { out_mask = 0; out_val = 0 }
  | in_addr_q ↦ record s { out_mask = 0; out_val = 0 }
  | in_dummy ↦ record s { out_mask = 0; out_val = 0 }
  | in_wr_s ↦ record s { out_mask = 0; out_val = 0 }
  | in_wr_q ↦ record s { out_mask = 0; out_val = 0 }
  | in_ignore ↦ record s { out_mask = 0; out_val = 0 }
]
