-- ===== src/Spi/Read.antt =====
-- The serial read of `SpiMem` of test/spimem.py over whole transactions.
use koti.Base.{
  ℕ, zero, suc, ◌+◌, ◌%◌, ◌^◌, ◌<◌, ◌≡◌, refl, ap, ◌∙◌, arith, some, Bool, List, [], ◌∷◌, ◌++◌,
  length, All, get_elem?, All-get_elem?, Option-cases, inl, inr,
}
use koti.Base.Bits.{◌<<◌, ◌>>◌, low_bits}
use koti.Base.Bytes.{IsByte}
use koti.Spi.State.{SpiMem, Phase, deselect, byte_at, in_rd_s}
use koti.Spi.Edges.{on_rise, on_fall}
use koti.Spi.Drive.{
  clock, drive, groups, bits_in, drive-append, bits_in_all, sampled, bits_in-sampled_all,
}
use koti.Spi.Serial.{at_address}

-- Eight bits as the controller samples them, one before each clock, and the device after them.
unfoldable pub receive : ℕ → SpiMem → List ℕ × SpiMem
receive zero s = ([], s)
receive (suc k) s = let (bits, t) = receive k (clock s 0) in (low_bits (s.out_val >> 1) 1 ∷ bits, t)

unfoldable pub read_bytes : ℕ → SpiMem → List ℕ
read_bytes zero s = []
read_bytes (suc k) s = let (bits, t) = receive 8 s in bits_in 8 0 bits ∷ read_bytes k t

-- A whole serial read: select, command, address, and the bytes.
unfoldable pub serial_read : ℕ → ℕ → SpiMem → List ℕ
serial_read a k s = read_bytes k (drive (groups 1 8 3 ++ groups 1 24 a) (deselect s))

-- The bytes of the memory from `a` on.
unfoldable pub load : List ℕ → ℕ → ℕ → List ℕ
load mem a zero = []
load mem a (suc k) = byte_at mem a ∷ load mem (a + 1) k

-- The device in the middle of a serial read, with the first bit of a byte on the line.
abbrev at_read : List ℕ → Bool → ℕ → SpiMem
at_read mem writable a = record {
  mem = mem;
  writable = writable;
  phase = in_rd_s;
  sh = 0;
  n = 0;
  cmd = some 3;
  addr = a + 1;
  dummy_left = 0;
  nib_idx = 2;
  bit_idx = 1;
  cur = byte_at mem a;
  out_mask = 2;
  out_val = low_bits (byte_at mem a >> 7) 1 << 1;
}

read_command :
    (s : SpiMem) → drive (groups 1 8 3) (deselect s) ≡ at_address s.mem s.writable s.bit_idx 3
unfolding drive groups deselect clock on_rise on_fall koti.Spi.Edges.rise_cmd
    koti.Spi.Edges.phase_of koti.Spi.Edges.shift
read_command s = refl

read_address :
    (mem : List ℕ) (writable : Bool) (bit_idx a : ℕ)
    → drive (groups 1 24 a) (at_address mem writable bit_idx 3)
      ≡ at_read mem writable (bits_in 24 0 (groups 1 24 a))
unfolding drive groups clock on_rise on_fall bits_in koti.Spi.Edges.rise_addr_s
    koti.Spi.Edges.start_serial koti.Spi.State.begin_read koti.Spi.Edges.fetch_serial
    koti.Spi.Edges.put_bit
read_address mem writable bit_idx a = refl

receive_byte :
    (mem : List ℕ) (writable : Bool) (a : ℕ)
    → receive 8 (at_read mem writable a)
      ≡ (sampled (groups 1 8 (byte_at mem a)), at_read mem writable (a + 1))
unfolding receive groups clock on_rise on_fall sampled koti.Spi.Edges.fetch_serial
    koti.Spi.Edges.put_bit
receive_byte mem writable a = refl

pub byte_at-IsByte : (mem : List ℕ) (a : ℕ) → All IsByte mem → IsByte (byte_at mem a)
unfolding byte_at
byte_at-IsByte mem a h = elim (Option-cases (get_elem? mem (a % length mem))) [
  | inl nothing ↦ rw (nothing, byte_at) (omega arith)
  | inr (b, found) ↦ rw (found, byte_at) (All-get_elem? IsByte mem (a % length mem) h found)
]

read_bytes-load :
    (mem : List ℕ) (writable : Bool) (a k : ℕ)
    → All IsByte mem
    → read_bytes k (at_read mem writable a) ≡ load mem a k
unfolding read_bytes load
read_bytes-load mem writable a zero h = refl
read_bytes-load mem writable a (suc k) h =
    let byte : bits_in 8 0 (sampled (groups 1 8 (byte_at mem a))) ≡ byte_at mem a =
      bits_in-sampled_all 8 (byte_at mem a) (omega (arith, byte_at-IsByte mem a h)) in
    let next = receive_byte mem writable a in
    ap (λ (r : List ℕ × SpiMem). bits_in 8 0 r.0 ∷ read_bytes k r.1) next
    ∙ ap (λ (v : ℕ). v ∷ read_bytes k (at_read mem writable (a + 1))) byte
    ∙ ap (λ (l : List ℕ). byte_at mem a ∷ l) (read_bytes-load mem writable (a + 1) k h)

pub serial_read-load :
    (s : SpiMem) (a k : ℕ) → a < 2 ^ 24 → All IsByte s.mem → serial_read a k s ≡ load s.mem a k
unfolding serial_read
serial_read-load s a k in_range bytes =
    let ready : drive (groups 1 8 3 ++ groups 1 24 a) (deselect s) ≡ at_read s.mem s.writable a =
      drive-append (groups 1 8 3) (groups 1 24 a) (deselect s)
      ∙ ap (drive (groups 1 24 a)) (read_command s)
      ∙ read_address s.mem s.writable s.bit_idx a
      ∙ ap (at_read s.mem s.writable) (bits_in_all 24 a in_range) in
    ap (read_bytes k) ready ∙ read_bytes-load s.mem s.writable a k bytes
