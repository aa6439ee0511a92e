-- ===== src/Spi/Tests.antt =====
-- The theorems on the memory of test/spimem.py at concrete inputs.
use koti.Base.{◌≡◌, refl, arith, true, false, none, [], ◌∷◌, All}
use koti.Spi.State.{SpiMem, in_ignore}
use koti.Spi.Serial.{serial_write}
use koti.Spi.Read.{serial_read}
use koti.Spi.Quad.{quad_read, quad_write, fast_read}
use koti.Spi.Agree.{quad_read-serial_read, quad_read-quad_write}
use koti.Base.Bytes.{IsByte}
use koti.Spi.RoundTrip.{serial_read-serial_write, serial_write-read_only}

-- A device of eight bytes in the middle of a command that it does not know.
abbrev psram : SpiMem
psram = record {
  mem = 1 ∷ 2 ∷ 3 ∷ 4 ∷ 5 ∷ 6 ∷ 7 ∷ 8 ∷ [];
  writable = true;
  phase = in_ignore;
  sh = 3;
  n = 1;
  cmd = none;
  addr = 7;
  dummy_left = 0;
  nib_idx = 0;
  bit_idx = 8;
  cur = 0;
  out_mask = 0;
  out_val = 0;
}

abbrev flash : SpiMem
flash = record psram { writable = false }

psram_bytes : All IsByte psram.mem
psram_bytes = (
  omega arith,
  (
    omega arith,
    (omega arith, (omega arith, (omega arith, (omega arith, (omega arith, (omega arith, tt)))))),
  ),
)

quad_read-serial_read_example :
    (quad_read 6 4 psram ≡ serial_read 6 4 psram)
    × (fast_read 6 4 psram ≡ serial_read 6 4 psram)
    × ((quad_write 6 (9 ∷ []) psram).mem ≡ (serial_write 6 (9 ∷ []) psram).mem)
quad_read-serial_read_example =
    quad_read-serial_read psram 6 4 (9 ∷ []) (omega arith) psram_bytes (omega arith, tt)

quad_read-quad_write_example : quad_read 5 2 (quad_write 5 (170 ∷ 255 ∷ []) psram) ≡ 170 ∷ 255 ∷ []
quad_read-quad_write_example =
    quad_read-quad_write psram 5 (170 ∷ 255 ∷ []) refl (omega arith) (omega arith) psram_bytes
      (omega arith, (omega arith, tt))

serial_read-serial_write_example :
    serial_read 5 2 (serial_write 5 (170 ∷ 255 ∷ []) psram) ≡ 170 ∷ 255 ∷ []
serial_read-serial_write_example =
    serial_read-serial_write psram 5 (170 ∷ 255 ∷ []) refl (omega arith) (omega arith) psram_bytes
      (omega arith, (omega arith, tt))

serial_write-read_only_example : (serial_write 5 (170 ∷ []) flash).mem ≡ flash.mem
serial_write-read_only_example =
    serial_write-read_only flash 5 (170 ∷ []) refl (omega arith) (omega arith, tt)
