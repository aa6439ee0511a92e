-- ===== src/Spi/RoundTrip.antt =====
-- A serial write to the memory of test/spimem.py, read back.
use koti.Base.{
  ℕ, ◌+◌, ◌%◌, ◌^◌, ◌<◌, ◌≤◌, ◌≡◌, refl, sym, ap, ◌∙◌, arith, some, Bool, true, false, List, [],
  ◌∷◌, length, set, get_elem?, get_elem?_lt, All, All-set, length-set, get_elem?-set_same,
  get_elem?-set_other,
}
use koti.Base.Bytes.{IsByte}
use koti.Spi.State.{SpiMem, byte_at}
use koti.Spi.Serial.{store, put_byte, serial_write, serial_write_lem}
use koti.Spi.Read.{serial_read, load, serial_read-load}
use native.Mathlib.Nat.{mod-eq_of_lt}

put_byte-IsByte :
    (writable : Bool) (mem : List ℕ) (a b : ℕ)
    → All IsByte mem
    → IsByte b
    → All IsByte (put_byte writable mem a b)
put_byte-IsByte true mem a b h hb = All-set IsByte mem (a % length mem) b h hb
put_byte-IsByte false mem a b h hb = h

pub store-IsByte :
    (writable : Bool) (mem : List ℕ) (a : ℕ) (bs : List ℕ)
    → All IsByte mem
    → All IsByte bs
    → All IsByte (store writable mem a bs)
unfolding store
store-IsByte writable mem a [] h hb = h
store-IsByte writable mem a (b ∷ bs) h hb =
    store-IsByte writable (put_byte writable mem a b) (a + 1) bs
      (put_byte-IsByte writable mem a b h hb.0) hb.1

length-put_byte : (mem : List ℕ) (a b : ℕ) → length (put_byte true mem a b) ≡ length mem
length-put_byte mem a b = length-set mem (a % length mem) b

byte_at-get_elem? :
    (mem : List ℕ) (j b : ℕ) → j < length mem → get_elem? mem j ≡ some b → byte_at mem j ≡ b
unfolding byte_at
byte_at-get_elem? mem j b h found =
    let at : j % length mem ≡ j = mod-eq_of_lt h in rw (at, byte_at, found) refl

byte_at-put_byte : (mem : List ℕ) (a b : ℕ) → a < length mem → byte_at (put_byte true mem a b) a ≡ b
byte_at-put_byte mem a b h =
    let at : a % length mem ≡ a = mod-eq_of_lt h in
    byte_at-get_elem? (put_byte true mem a b) a b (omega (arith, length-put_byte mem a b))
      (ap (λ (i : ℕ). get_elem? (set mem i b) a) at ∙ get_elem?-set_same mem a b h)

byte_at-put_byte_before :
    (mem : List ℕ) (a b j : ℕ)
    → a < length mem
    → j < a
    → byte_at (put_byte true mem a b) j ≡ byte_at mem j
byte_at-put_byte_before mem a b j h before =
    let at : a % length mem ≡ a = mod-eq_of_lt h in
    let (v, found) = get_elem?_lt mem j (omega arith) in
    byte_at-get_elem? (put_byte true mem a b) j v (omega (arith, length-put_byte mem a b))
      (ap (λ (i : ℕ). get_elem? (set mem i b) j) at ∙ get_elem?-set_other mem a j b before ∙ found)
    ∙ sym (byte_at-get_elem? mem j v (omega arith) found)

byte_at-store_before :
    (mem : List ℕ) (a : ℕ) (bs : List ℕ) (j : ℕ)
    → a + length bs ≤ length mem
    → j < a
    → byte_at (store true mem a bs) j ≡ byte_at mem j
unfolding store
byte_at-store_before mem a [] j fits before = refl
byte_at-store_before mem a (b ∷ bs) j fits before =
    byte_at-store_before (put_byte true mem a b) (a + 1) bs j
      (omega (arith, length-put_byte mem a b)) (omega arith)
    ∙ byte_at-put_byte_before mem a b j (omega arith) before

pub load-store :
    (mem : List ℕ) (a : ℕ) (bs : List ℕ)
    → a + length bs ≤ length mem
    → load (store true mem a bs) a (length bs) ≡ bs
unfolding load store
load-store mem a [] fits = refl
load-store mem a (b ∷ bs) fits =
    let mem' = put_byte true mem a b in
    let first : byte_at (store true mem' (a + 1) bs) a ≡ b =
      byte_at-store_before mem' (a + 1) bs a (omega (arith, length-put_byte mem a b)) (omega arith)
      ∙ byte_at-put_byte mem a b (omega arith) in
    let rest : load (store true mem' (a + 1) bs) (a + 1) (length bs) ≡ bs =
      load-store mem' (a + 1) bs (omega (arith, length-put_byte mem a b)) in
    ap (λ (x : ℕ). x ∷ load (store true mem' (a + 1) bs) (a + 1) (length bs)) first
    ∙ ap (λ (l : List ℕ). b ∷ l) rest

-- From any state of a writable device with a memory of bytes: the bytes that a serial write (02h)
-- clocks in at an address of 24 bits are what a serial read (03h) at that address clocks out, if they
-- fit behind the address in the memory.
pub serial_read-serial_write :
    (s : SpiMem) (a : ℕ) (bs : List ℕ)
    → s.writable ≡ true
    → a < 2 ^ 24
    → a + length bs ≤ length s.mem
    → All IsByte s.mem
    → All IsByte bs
    → serial_read a (length bs) (serial_write a bs s) ≡ bs
serial_read-serial_write s a bs writable in_range fits old new =
    let (mem_eq, _) = serial_write_lem s a bs in_range new in
    let written : (serial_write a bs s).mem ≡ store true s.mem a bs =
      mem_eq ∙ ap (λ (w : Bool). store w s.mem a bs) writable in
    serial_read-load (serial_write a bs s) a (length bs) in_range
      (rw written (store-IsByte true s.mem a bs old new))
    ∙ ap (λ (m : List ℕ). load m a (length bs)) written
    ∙ load-store s.mem a bs fits

store-read_only : (mem : List ℕ) (a : ℕ) (bs : List ℕ) → store false mem a bs ≡ mem
unfolding store
store-read_only mem a [] = refl
store-read_only mem a (b ∷ bs) = store-read_only mem (a + 1) bs

-- A serial write of bytes at an address of 24 bits leaves the memory of a device that cannot be written
-- as it is.
pub serial_write-read_only :
    (s : SpiMem) (a : ℕ) (bs : List ℕ)
    → s.writable ≡ false
    → a < 2 ^ 24
    → All IsByte bs
    → (serial_write a bs s).mem ≡ s.mem
serial_write-read_only s a bs read_only in_range new =
    (serial_write_lem s a bs in_range new).0
    ∙ ap (λ (w : Bool). store w s.mem a bs) read_only
    ∙ store-read_only s.mem a bs
