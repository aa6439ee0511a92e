-- ===== src/Spi/Serial.antt =====
-- The serial commands of `SpiMem` of test/spimem.py over whole transactions.
use koti.Base.{
  ℕ, suc, ◌+◌, ◌%◌, ◌^◌, ◌<◌, ◌≡◌, refl, ap, ◌∙◌, arith, some, Bool, true, false, List, [], ◌∷◌,
  ◌++◌, length, set, All,
}
use koti.Base.Bytes.{IsByte}
use koti.Spi.State.{SpiMem, deselect, in_addr_s, in_wr_s}
use koti.Spi.Edges.{shift, on_rise, on_fall}
use koti.Spi.Drive.{clock, drive, groups, all_groups, bits_in, drive-append, bits_in_all}

-- The memory after one byte is stored.
abbrev pub put_byte : Bool → List ℕ → ℕ → ℕ → List ℕ
put_byte writable mem a b = elim writable [ true ↦ set mem (a % length mem) b | false ↦ mem ]

-- The memory after the bytes are stored from `a` on.
unfoldable pub store : Bool → List ℕ → ℕ → List ℕ → List ℕ
store writable mem a [] = mem
store writable mem a (b ∷ bs) = store writable (put_byte writable mem a b) (a + 1) bs

-- The device in the middle of a serial write, at a byte's start.
abbrev pub at_write : List ℕ → Bool → ℕ → ℕ → SpiMem
at_write mem writable bit_idx a = record {
  mem = mem;
  writable = writable;
  phase = in_wr_s;
  sh = 0;
  n = 0;
  cmd = some 2;
  addr = a;
  dummy_left = 0;
  nib_idx = 0;
  bit_idx = bit_idx;
  cur = 0;
  out_mask = 0;
  out_val = 0;
}

-- The device with a command in and no address yet.
abbrev pub at_address : List ℕ → Bool → ℕ → ℕ → SpiMem
at_address mem writable bit_idx cmd = record {
  mem = mem;
  writable = writable;
  phase = in_addr_s;
  sh = 0;
  n = 0;
  cmd = some cmd;
  addr = 0;
  dummy_left = 0;
  nib_idx = 0;
  bit_idx = bit_idx;
  cur = 0;
  out_mask = 0;
  out_val = 0;
}

write_command :
    (s : SpiMem) → drive (groups 1 8 2) (deselect s) ≡ at_address s.mem s.writable s.bit_idx 2
unfolding drive groups deselect clock on_rise on_fall koti.Spi.Edges.rise_cmd
    koti.Spi.Edges.phase_of koti.Spi.Edges.shift
write_command s = refl

write_address :
    (mem : List ℕ) (writable : Bool) (bit_idx a : ℕ)
    → drive (groups 1 24 a) (at_address mem writable bit_idx 2)
      ≡ at_write mem writable bit_idx (bits_in 24 0 (groups 1 24 a))
unfolding drive groups clock on_rise on_fall bits_in koti.Spi.Edges.rise_addr_s
    koti.Spi.Edges.start_serial
write_address mem writable bit_idx a = refl

write_byte :
    (mem : List ℕ) (writable : Bool) (bit_idx a b : ℕ)
    → drive (groups 1 8 b) (at_write mem writable bit_idx a)
      ≡ at_write (put_byte writable mem a (bits_in 8 0 (groups 1 8 b))) writable bit_idx (a + 1)
unfolding drive groups clock on_rise on_fall bits_in koti.Spi.Edges.rise_write
    koti.Spi.Edges.store_byte
write_byte mem true bit_idx a b = refl
write_byte mem false bit_idx a b = refl

write_bytes :
    (mem : List ℕ) (writable : Bool) (bit_idx a : ℕ) (bs : List ℕ)
    → All IsByte bs
    → drive (all_groups 1 8 bs) (at_write mem writable bit_idx a)
      ≡ at_write (store writable mem a bs) writable bit_idx (a + length bs)
unfolding all_groups store drive
write_bytes mem writable bit_idx a [] h = let e : a + 0 ≡ a = omega arith in rw e refl
write_bytes mem writable bit_idx a (b ∷ bs) h =
    let e : a + suc (length bs) ≡ a + 1 + length bs = omega arith in
    let kept = put_byte writable mem a b in
    let byte : bits_in 8 0 (groups 1 8 b) ≡ b = bits_in_all 8 b (omega (arith, h.0)) in
    rw e (
      drive-append (groups 1 8 b) (all_groups 1 8 bs) (at_write mem writable bit_idx a)
      ∙ ap (drive (all_groups 1 8 bs)) (write_byte mem writable bit_idx a b)
      ∙ ap
          (λ (v : ℕ).
            drive (all_groups 1 8 bs)
              (at_write (put_byte writable mem a v) writable bit_idx (a + 1)))
          byte
      ∙ write_bytes kept writable bit_idx (a + 1) bs h.1)

-- A whole serial write: select, command, address, bytes, deselect.
unfoldable pub serial_write : ℕ → List ℕ → SpiMem → SpiMem
serial_write a bs s =
    deselect (drive (groups 1 8 2 ++ (groups 1 24 a ++ all_groups 1 8 bs)) (deselect s))

pub serial_write_lem :
    (s : SpiMem) (a : ℕ) (bs : List ℕ)
    → a < 2 ^ 24
    → All IsByte bs
    → ((serial_write a bs s).mem ≡ store s.writable s.mem a bs)
      × ((serial_write a bs s).writable ≡ s.writable)
unfolding serial_write deselect
serial_write_lem s a bs in_range bytes =
    let ends : drive (groups 1 8 2 ++ (groups 1 24 a ++ all_groups 1 8 bs)) (deselect s)
        ≡ at_write (store s.writable s.mem a bs) s.writable s.bit_idx (a + length bs) =
      drive-append (groups 1 8 2) (groups 1 24 a ++ all_groups 1 8 bs) (deselect s)
      ∙ ap (drive (groups 1 24 a ++ all_groups 1 8 bs)) (write_command s)
      ∙ drive-append (groups 1 24 a) (all_groups 1 8 bs) (at_address s.mem s.writable s.bit_idx 2)
      ∙ ap (drive (all_groups 1 8 bs)) (write_address s.mem s.writable s.bit_idx a)
      ∙ ap (λ (v : ℕ). drive (all_groups 1 8 bs) (at_write s.mem s.writable s.bit_idx v))
          (bits_in_all 24 a in_range)
      ∙ write_bytes s.mem s.writable s.bit_idx a bs bytes in
    (ap (λ (t : SpiMem). t.mem) ends, ap (λ (t : SpiMem). t.writable) ends)
