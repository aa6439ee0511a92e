-- ===== src/Spi/Quad.antt =====
-- The quad commands of `SpiMem` of test/spimem.py over whole transactions: 38h writes, EBh and 6Bh read.
use koti.Base.{
  ℕ, zero, suc, ◌+◌, ◌^◌, ◌<◌, ◌≡◌, refl, sym, ap, ◌∙◌, arith, Bool, true, false, List, [], ◌∷◌,
  ◌++◌, length, All, replicate,
}
use koti.Base.Bits.{◌>>◌, low_bits}
use koti.Base.Bytes.{IsByte}
use koti.Spi.State.{SpiMem, deselect, byte_at, in_addr_q, in_wr_q, in_rd_q}
use koti.Spi.Edges.{shift, on_rise, on_fall}
use koti.Spi.Drive.{
  clock, drive, groups, all_groups, bits_in, shift_in, drive-append, shift_in-groups,
}
use koti.Spi.Serial.{at_address, store, put_byte}
use koti.Spi.Read.{load, byte_at-IsByte}
use native.Mathlib.Nat.{div-one}

-- The device with a quad command in and no address yet, and at a byte's start of a quad write.
abbrev at_quad_address : List ℕ → Bool → ℕ → ℕ → SpiMem
at_quad_address mem writable bit_idx cmd = record (at_address mem writable bit_idx cmd) {
  phase = in_addr_q;
}

abbrev at_quad_write : List ℕ → Bool → ℕ → ℕ → SpiMem
at_quad_write mem writable bit_idx a = record (at_address mem writable bit_idx 56) {
  phase = in_wr_q;
  addr = a;
}

-- The device in the middle of a quad read, with the high half of a byte on the lines.
abbrev pub at_quad_read : List ℕ → Bool → ℕ → ℕ → SpiMem
at_quad_read mem writable cmd a = record (at_address mem writable 8 cmd) {
  phase = in_rd_q;
  addr = a + 1;
  nib_idx = 1;
  cur = byte_at mem a;
  out_mask = 15;
  out_val = low_bits (byte_at mem a >> 4) 4;
}

quad_write_command :
    (s : SpiMem)
    → drive (groups 1 8 56) (deselect s) ≡ at_quad_address s.mem s.writable s.bit_idx 56
unfolding drive groups deselect clock on_rise on_fall koti.Spi.Edges.rise_cmd
    koti.Spi.Edges.phase_of shift
quad_write_command s = refl

quad_write_address :
    (mem : List ℕ) (writable : Bool) (bit_idx a : ℕ)
    → drive (groups 4 6 a) (at_quad_address mem writable bit_idx 56)
      ≡ at_quad_write mem writable bit_idx (shift_in 4 24 0 (groups 4 6 a))
unfolding drive groups clock on_rise on_fall shift_in koti.Spi.Edges.rise_addr_q
    koti.Spi.Edges.start_quad
quad_write_address mem writable bit_idx a = refl

quad_write_byte :
    (mem : List ℕ) (writable : Bool) (bit_idx a b : ℕ)
    → drive (groups 4 2 b) (at_quad_write mem writable bit_idx a)
      ≡ at_quad_write
          (put_byte writable mem a (shift_in 4 8 0 (groups 4 2 b)))
          writable
          bit_idx
          (a + 1)
unfolding drive groups clock on_rise on_fall shift_in koti.Spi.Edges.rise_write
    koti.Spi.Edges.store_byte
quad_write_byte mem true bit_idx a b = refl
quad_write_byte mem false bit_idx a b = refl

quad_write_bytes :
    (mem : List ℕ) (writable : Bool) (bit_idx a : ℕ) (bs : List ℕ)
    → All IsByte bs
    → drive (all_groups 4 2 bs) (at_quad_write mem writable bit_idx a)
      ≡ at_quad_write (store writable mem a bs) writable bit_idx (a + length bs)
unfolding all_groups store drive
quad_write_bytes mem writable bit_idx a [] h = let e : a + 0 ≡ a = omega arith in rw e refl
quad_write_bytes mem writable bit_idx a (b ∷ bs) h =
    let e : a + suc (length bs) ≡ a + 1 + length bs = omega arith in
    let byte : shift_in 4 8 0 (groups 4 2 b) ≡ b =
      shift_in-groups 4 8 2 b (omega (arith, h.0)) (omega (arith, h.0)) in
    rw e (
      drive-append (groups 4 2 b) (all_groups 4 2 bs) (at_quad_write mem writable bit_idx a)
      ∙ ap (drive (all_groups 4 2 bs)) (quad_write_byte mem writable bit_idx a b)
      ∙ ap
          (λ (v : ℕ).
            drive (all_groups 4 2 bs)
              (at_quad_write (put_byte writable mem a v) writable bit_idx (a + 1)))
          byte
      ∙ quad_write_bytes (put_byte writable mem a b) writable bit_idx (a + 1) bs h.1)

-- A whole quad write, and whole quad reads by EBh and 6Bh with the lines at rest in the dummy clocks.
unfoldable pub quad_write : ℕ → List ℕ → SpiMem → SpiMem
quad_write a bs s =
    deselect (drive (groups 1 8 56 ++ (groups 4 6 a ++ all_groups 4 2 bs)) (deselect s))

unfoldable pub receive_nibbles : ℕ → SpiMem → List ℕ × SpiMem
receive_nibbles zero s = ([], s)
receive_nibbles (suc k) s =
    let (nibbles, t) = receive_nibbles k (clock s 0) in (s.out_val ∷ nibbles, t)

unfoldable pub read_quad_bytes : ℕ → SpiMem → List ℕ
read_quad_bytes zero s = []
read_quad_bytes (suc k) s =
    let (nibbles, t) = receive_nibbles 2 s in shift_in 4 8 0 nibbles ∷ read_quad_bytes k t

unfoldable pub quad_read : ℕ → ℕ → SpiMem → List ℕ
quad_read a k s =
    read_quad_bytes k (drive (groups 1 8 235 ++ (groups 4 6 a ++ replicate 6 0)) (deselect s))

unfoldable pub fast_read : ℕ → ℕ → SpiMem → List ℕ
fast_read a k s =
    read_quad_bytes k (drive (groups 1 8 107 ++ (groups 1 24 a ++ replicate 8 0)) (deselect s))

pub quad_write_lem :
    (s : SpiMem) (a : ℕ) (bs : List ℕ)
    → a < 2 ^ 24
    → All IsByte bs
    → (quad_write a bs s).mem ≡ store s.writable s.mem a bs
unfolding quad_write deselect
quad_write_lem s a bs in_range bytes =
    ap (λ (t : SpiMem). t.mem)
      (drive-append (groups 1 8 56) (groups 4 6 a ++ all_groups 4 2 bs) (deselect s)
        ∙ ap (drive (groups 4 6 a ++ all_groups 4 2 bs)) (quad_write_command s)
        ∙ drive-append (groups 4 6 a) (all_groups 4 2 bs)
            (at_quad_address s.mem s.writable s.bit_idx 56)
        ∙ ap (drive (all_groups 4 2 bs)) (quad_write_address s.mem s.writable s.bit_idx a)
        ∙ ap (λ (v : ℕ). drive (all_groups 4 2 bs) (at_quad_write s.mem s.writable s.bit_idx v))
            (shift_in-groups 4 24 6 a in_range in_range)
        ∙ quad_write_bytes s.mem s.writable s.bit_idx a bs bytes)

receive_nibbles_lem :
    (mem : List ℕ) (writable : Bool) (cmd a : ℕ)
    → receive_nibbles 2 (at_quad_read mem writable cmd a)
      ≡ (groups 4 2 (byte_at mem a), at_quad_read mem writable cmd (a + 1))
unfolding receive_nibbles groups clock on_rise on_fall koti.Spi.Edges.fetch_quad
    koti.Spi.Edges.put_nibble
receive_nibbles_lem mem writable cmd a =
    ap
      (λ (v : ℕ). (
        low_bits (byte_at mem a >> 4) 4 ∷ low_bits v 4 ∷ [],
        at_quad_read mem writable cmd (a + 1),
      ))
      (sym (div-one (byte_at mem a)))

pub read_quad_bytes-load :
    (mem : List ℕ) (writable : Bool) (cmd a k : ℕ)
    → All IsByte mem
    → read_quad_bytes k (at_quad_read mem writable cmd a) ≡ load mem a k
unfolding read_quad_bytes load
read_quad_bytes-load mem writable cmd a zero h = refl
read_quad_bytes-load mem writable cmd a (suc k) h =
    let small = byte_at-IsByte mem a h in
    let byte : shift_in 4 8 0 (groups 4 2 (byte_at mem a)) ≡ byte_at mem a =
      shift_in-groups 4 8 2 (byte_at mem a) (omega arith) (omega arith) in
    ap (λ (r : List ℕ × SpiMem). shift_in 4 8 0 r.0 ∷ read_quad_bytes k r.1)
      (receive_nibbles_lem mem writable cmd a)
    ∙ ap (λ (v : ℕ). v ∷ read_quad_bytes k (at_quad_read mem writable cmd (a + 1))) byte
    ∙ ap (λ (l : List ℕ). byte_at mem a ∷ l) (read_quad_bytes-load mem writable cmd (a + 1) k h)

pub quad_read_command :
    (s : SpiMem)
    → drive (groups 1 8 235) (deselect s) ≡ at_quad_address s.mem s.writable s.bit_idx 235
unfolding drive groups deselect clock on_rise on_fall koti.Spi.Edges.rise_cmd
    koti.Spi.Edges.phase_of shift
quad_read_command s = refl

pub quad_read_address :
    (mem : List ℕ) (writable : Bool) (bit_idx a : ℕ)
    → drive (groups 4 6 a ++ replicate 6 0) (at_quad_address mem writable bit_idx 235)
      ≡ at_quad_read mem writable 235 (shift_in 4 24 0 (groups 4 6 a))
unfolding drive groups clock on_rise on_fall shift_in koti.Spi.Edges.rise_addr_q
    koti.Spi.Edges.start_quad koti.Spi.Edges.rise_dummy koti.Spi.State.begin_read
    koti.Spi.Edges.fetch_quad koti.Spi.Edges.put_nibble
quad_read_address mem writable bit_idx a = refl

pub fast_read_command :
    (s : SpiMem) → drive (groups 1 8 107) (deselect s) ≡ at_address s.mem s.writable s.bit_idx 107
unfolding drive groups deselect clock on_rise on_fall koti.Spi.Edges.rise_cmd
    koti.Spi.Edges.phase_of shift
fast_read_command s = refl

pub fast_read_address :
    (mem : List ℕ) (writable : Bool) (bit_idx a : ℕ)
    → drive (groups 1 24 a ++ replicate 8 0) (at_address mem writable bit_idx 107)
      ≡ at_quad_read mem writable 107 (bits_in 24 0 (groups 1 24 a))
unfolding drive groups clock on_rise on_fall bits_in koti.Spi.Edges.rise_addr_s
    koti.Spi.Edges.start_serial koti.Spi.Edges.rise_dummy koti.Spi.State.begin_read
    koti.Spi.Edges.fetch_quad koti.Spi.Edges.put_nibble
fast_read_address mem writable bit_idx a = refl
