-- ===== src/Card/Device.antt =====
-- A block device as tools/sdkernel.py uses it. The operating system's `seek`, `write` and `read` are not
-- code of this repository: they are an interface, whose documented behaviour the laws name.
use koti.Base.{
  ℕ, ◌+◌, ◌≤◌, ◌≡◌, sym, ap, ◌∙◌, arith, Option, some, List, ◌++◌, length, take, drop,
  length-append, length-take, length-drop, take-append, drop-append, drop-drop, append_assoc,
}

-- `none` is an OSError. A write takes all of its bytes; a read may give fewer than asked for.
pub record Device (S : Type 0) : Type 0 where
  pub write_at : S → ℕ → List ℕ → Option S
  pub read_at : S → ℕ → ℕ → Option (List ℕ)

-- `xs` with `bytes` in the place of what stood from `off` on.
unfoldable pub overlay : ℕ → List ℕ → List ℕ → List ℕ
overlay off bytes xs = take off xs ++ (bytes ++ drop (off + length bytes) xs)

pub length-overlay :
    (off : ℕ) (bytes xs : List ℕ)
    → off + length bytes ≤ length xs
    → length (overlay off bytes xs) ≡ length xs
unfolding overlay
length-overlay off bytes xs h = omega (
  arith,
  length-append (take off xs) (bytes ++ drop (off + length bytes) xs),
  length-append bytes (drop (off + length bytes) xs),
  length-take off xs,
  length-drop (off + length bytes) xs,
)

-- What was laid over a list is what stands there.
pub take-drop-overlay :
    (off : ℕ) (bytes xs : List ℕ)
    → off + length bytes ≤ length xs
    → take (length bytes) (drop off (overlay off bytes xs)) ≡ bytes
unfolding overlay
take-drop-overlay off bytes xs h =
    let before : length (take off xs) ≡ off = omega (arith, length-take off xs) in
    ap
      (λ (k : ℕ).
        take (length bytes) (drop k (take off xs ++ (bytes ++ drop (off + length bytes) xs))))
      (sym before)
    ∙ ap (take (length bytes)) (drop-append (take off xs) (bytes ++ drop (off + length bytes) xs))
    ∙ take-append bytes (drop (off + length bytes) xs)

-- Two pieces laid one behind the other are their concatenation.
pub overlay-overlay :
    (off : ℕ) (a z xs : List ℕ)
    → off + length a + length z ≤ length xs
    → overlay (off + length a) z (overlay off a xs) ≡ overlay off (a ++ z) xs
unfolding overlay
overlay-overlay off a z xs h =
    let r = drop (off + length a) xs in
    let p = take off xs ++ a in
    let p_length : length p ≡ off + length a =
      omega (arith, length-append (take off xs) a, length-take off xs) in
    let kept : take (off + length a) (p ++ r) ≡ p =
      ap (λ (k : ℕ). take k (p ++ r)) (sym p_length) ∙ take-append p r in
    let past : drop (off + length a) (p ++ r) ≡ r =
      ap (λ (k : ℕ). drop k (p ++ r)) (sym p_length) ∙ drop-append p r in
    let behind : drop (off + length a + length z) (p ++ r) ≡ drop (off + length a + length z) xs =
      sym (drop-drop (off + length a) (length z) (p ++ r))
      ∙ ap (drop (length z)) past
      ∙ drop-drop (off + length a) (length z) xs in
    let at : off + length (a ++ z) ≡ off + length a + length z = omega (arith, length-append a z) in
    let t = drop (off + length a + length z) xs in
    rw (sym (append_assoc (take off xs) a r), kept, behind, at)
      (append_assoc (take off xs) a (z ++ t)
        ∙ ap (λ (l : List ℕ). take off xs ++ l) (sym (append_assoc a z t)))

module _ {S : Type 0} (device : Device S) (contents : S → List ℕ) where
  -- A read gives the bytes of the device from the offset on.
  pub record IsReadable : Type 0 where
    pub reads : (s : S) (off n : ℕ) → device.read_at s off n ≡ some (take n (drop off (contents s)))

  -- A write inside the device succeeds and replaces the bytes that it covers.
  pub record IsWritable : Type 0 where
    pub writes :
        (s : S) (off : ℕ) (bytes : List ℕ)
        → off + length bytes ≤ length (contents s)
        → (t : S) × (device.write_at s off bytes ≡ some t)
          × (contents t ≡ overlay off bytes (contents s))
