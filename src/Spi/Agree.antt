-- ===== src/Spi/Agree.antt =====
-- The serial and the quad commands of the memory of test/spimem.py do the same.
use koti.Base.{
  ℕ, ◌+◌, ◌^◌, ◌<◌, ◌≤◌, ◌≡◌, sym, ap, ◌∙◌, Bool, true, List, ◌++◌, length, All, replicate,
}
use koti.Base.Bytes.{IsByte}
use koti.Spi.State.{SpiMem, deselect}
use koti.Spi.Drive.{drive, groups, drive-append, bits_in_all, shift_in-groups}
use koti.Spi.Serial.{store, serial_write, serial_write_lem}
use koti.Spi.Read.{load, serial_read, serial_read-load}
use koti.Spi.RoundTrip.{store-IsByte, load-store}
use koti.Spi.Quad.{
  at_quad_read, quad_write, quad_write_lem, quad_read, fast_read, read_quad_bytes,
  read_quad_bytes-load, quad_read_command, quad_read_address, fast_read_command, fast_read_address,
}

quad_read-load :
    (s : SpiMem) (a k : ℕ) → a < 2 ^ 24 → All IsByte s.mem → quad_read a k s ≡ load s.mem a k
unfolding quad_read
quad_read-load s a k in_range bytes =
    let ready : drive (groups 1 8 235 ++ (groups 4 6 a ++ replicate 6 0)) (deselect s)
        ≡ at_quad_read s.mem s.writable 235 a =
      drive-append (groups 1 8 235) (groups 4 6 a ++ replicate 6 0) (deselect s)
      ∙ ap (drive (groups 4 6 a ++ replicate 6 0)) (quad_read_command s)
      ∙ quad_read_address s.mem s.writable s.bit_idx a
      ∙ ap (at_quad_read s.mem s.writable 235) (shift_in-groups 4 24 6 a in_range in_range) in
    ap (read_quad_bytes k) ready ∙ read_quad_bytes-load s.mem s.writable 235 a k bytes

fast_read-load :
    (s : SpiMem) (a k : ℕ) → a < 2 ^ 24 → All IsByte s.mem → fast_read a k s ≡ load s.mem a k
unfolding fast_read
fast_read-load s a k in_range bytes =
    let ready : drive (groups 1 8 107 ++ (groups 1 24 a ++ replicate 8 0)) (deselect s)
        ≡ at_quad_read s.mem s.writable 107 a =
      drive-append (groups 1 8 107) (groups 1 24 a ++ replicate 8 0) (deselect s)
      ∙ ap (drive (groups 1 24 a ++ replicate 8 0)) (fast_read_command s)
      ∙ fast_read_address s.mem s.writable s.bit_idx a
      ∙ ap (at_quad_read s.mem s.writable 107) (bits_in_all 24 a in_range) in
    ap (read_quad_bytes k) ready ∙ read_quad_bytes-load s.mem s.writable 107 a k bytes

-- From any state, on a memory of bytes and at an address of 24 bits: the quad read (EBh) and the quad output read (6Bh) clock out
-- the bytes that the serial read (03h) does, also where the address runs around the memory's end; and
-- the quad write (38h) leaves the memory that the serial write (02h) does.
pub quad_read-serial_read :
    (s : SpiMem) (a k : ℕ) (bs : List ℕ)
    → a < 2 ^ 24
    → All IsByte s.mem
    → All IsByte bs
    → (quad_read a k s ≡ serial_read a k s)
      × (fast_read a k s ≡ serial_read a k s)
      × ((quad_write a bs s).mem ≡ (serial_write a bs s).mem)
quad_read-serial_read s a k bs in_range old new =
    let serial = serial_read-load s a k in_range old in
    (
      quad_read-load s a k in_range old ∙ sym serial,
      fast_read-load s a k in_range old ∙ sym serial,
      quad_write_lem s a bs in_range new ∙ sym (serial_write_lem s a bs in_range new).0,
    )

-- From any state of a writable device with a memory of bytes: the bytes that a quad write (38h) clocks
-- in at an address of 24 bits are what a quad read (EBh) at that address clocks out, if they fit behind
-- the address in the memory.
pub quad_read-quad_write :
    (s : SpiMem) (a : ℕ) (bs : List ℕ)
    → s.writable ≡ true
    → a < 2 ^ 24
    → a + length bs ≤ length s.mem
    → All IsByte s.mem
    → All IsByte bs
    → quad_read a (length bs) (quad_write a bs s) ≡ bs
quad_read-quad_write s a bs writable in_range fits old new =
    let written : (quad_write a bs s).mem ≡ store true s.mem a bs =
      quad_write_lem s a bs in_range new ∙ ap (λ (w : Bool). store w s.mem a bs) writable in
    quad_read-load (quad_write a bs s) a (length bs) in_range
      (rw written (store-IsByte true s.mem a bs old new))
    ∙ ap (λ (m : List ℕ). load m a (length bs)) written
    ∙ load-store s.mem a bs fits
