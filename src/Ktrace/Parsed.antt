-- ===== src/Ktrace/Parsed.antt =====
-- The lines that test/tb_boot.v prints are the lines that tools/ktrace.py reads: `$display` of the two
-- traces against `row`.
use koti.Base.{
  ℕ, ◌-◌, ◌≡◌, ◌≢◌, refl, ◌∙◌, arith, Option, none, some, Bool, true, false, not, ◌&&◌, ◌==◌, ◌>>=◌,
  [], ◌∷◌, ◌++◌, if◌then◌else◌, length, replicate, All-append, All-replicate,
}
use koti.Base.Int.{pos, ◌+ℤ◌, ◌-ℤ◌}
use koti.Base.Text.{Text, lit, hex, dec, zero_pad, hex8}
use koti.Base.Number.{
  expect, is_dec, is_hex, value, Passes, span-append, value-zeros, value-hex, value-dec, hex-Passes,
  dec-Passes, hex-ne-nil, dec-ne-nil,
}
use koti.Ktrace.Lines.{number, flag, is_stalled, fetch_row, pc_row, row}

-- `%b` of one bit.
unfoldable pub bit : Bool → ℕ
bit b = if b then b'1' else b'0'

-- `$display` of the coarse trace. The two addresses are 26 bits wide: seven digits.
unfoldable pub fetch_line : ℕ → ℕ → Bool → Bool → ℕ → Bool → Bool → Bool → Text → Text
fetch_line clk if_addr if_rq if_ak d_addr d_rq d_we d_ak rest =
    lit "["
    ++ (dec clk
        ++ ((b']' ∷ lit " fetch ")
            ++ (zero_pad 7 (hex if_addr)
                ++ ((b' ' ∷ lit "if(rq")
                    ++ (bit if_rq
                        ∷ (lit " ak"
                            ++ (bit if_ak
                                ∷ (lit ") d "
                                    ++ (zero_pad 7 (hex d_addr)
                                        ++ ((b' ' ∷ lit "(rq")
                                            ++ (bit d_rq
                                                ∷ (lit " we"
                                                    ++ (bit d_we
                                                        ∷ (lit " ak"
                                                            ++ (bit d_ak
                                                            ∷ (lit ")" ++ (rest)))))))))))))))))

-- `$display` of the per-clock trace.
unfoldable pub pc_line : ℕ → ℕ → ℕ → ℕ → Bool → Bool → Bool → Text → Text
pc_line clk pc_d pc_e d_addr d_rq d_we d_ak rest =
    lit "["
    ++ (dec clk
        ++ ((b']' ∷ lit " pc_d ")
            ++ (hex8 pc_d
                ++ ((b' ' ∷ lit "pc_e ")
                    ++ (hex8 pc_e
                        ++ ((b' ' ∷ lit "| d ")
                            ++ (zero_pad 7 (hex d_addr)
                                ++ ((b' ' ∷ lit "rq")
                                    ++ (bit d_rq
                                        ∷ (lit " we"
                                            ++ (bit d_we
                                                ∷ (lit " ak" ++ (bit d_ak ∷ (rest))))))))))))))

bind_step :
    {A B : Type 0} {r : Option B} {a : A} (o : Option A) (f : A → Option B)
    → o ≡ some a
    → f a ≡ r
    → (o >>= f) ≡ r
bind_step o f e h = rw e h

expect-append : (s t : Text) → expect s (s ++ t) ≡ some t
unfolding expect
expect-append [] t = refl
expect-append (c ∷ s) t = let same : (c == c) ≡ true = ground arith in rw same (expect-append s t)

flag-bit : (b : Bool) (t : Text) → flag (bit b ∷ t) ≡ some (bit b, t)
unfolding flag bit is_dec
flag-bit true t = refl
flag-bit false t = refl

is_stalled-bit : (rq ak : Bool) → is_stalled (bit rq) (bit ak) ≡ rq && not ak
unfolding is_stalled bit
is_stalled-bit true true = refl
is_stalled-bit true false = refl
is_stalled-bit false true = refl
is_stalled-bit false false = refl

number-append :
    (p : ℕ → Bool) (base n c : ℕ) (s rest : Text)
    → Passes p s
    → s ≢ []
    → value base 0 s ≡ n
    → p c ≡ false
    → number p base (s ++ c ∷ rest) ≡ some (n, c ∷ rest)
unfolding number
number-append p base n c [] rest passes nonempty spelled stop = absurd (nonempty refl)
number-append p base n c (d ∷ s) rest passes nonempty spelled stop =
    let split = span-append p (d ∷ s) rest c passes stop in
    rw (split, number) (rw split (rw spelled refl))

append-ne-nil : (s t : Text) → t ≢ [] → s ++ t ≢ []
append-ne-nil [] t h = h
append-ne-nil (c ∷ s) t h = λ e. absurd (cc)

number-hex :
    (w n : ℕ) (rest : Text)
    → number is_hex 16 (zero_pad w (hex n) ++ b' ' ∷ rest) ≡ some (n, b' ' ∷ rest)
unfolding zero_pad is_hex is_dec
number-hex w n rest =
    let zeros = replicate (w - length (hex n)) b'0' in
    number-append is_hex 16 n b' ' (zeros ++ hex n) rest
      (All-append (λ c. is_hex c ≡ true) zeros (hex n) (All-replicate _ _ b'0' zero_hex)
        (hex-Passes n))
      (append-ne-nil zeros (hex n) (hex-ne-nil n))
      (value-zeros (w - length (hex n)) (hex n) ∙ value-hex n) space
  where
    zero_hex : is_hex b'0' ≡ true
    zero_hex = refl

    space : is_hex b' ' ≡ false
    space = refl

number-dec : (n : ℕ) (rest : Text) → number is_dec 10 (dec n ++ b']' ∷ rest) ≡ some (n, b']' ∷ rest)
unfolding is_dec
number-dec n rest =
    number-append is_dec 10 n b']' (dec n) rest (dec-Passes n) (dec-ne-nil n) (value-dec n) bracket
  where
    bracket : is_dec b']' ≡ false
    bracket = refl

fetch_row-fetch_line :
    (load_pa load_va clk if_addr d_addr : ℕ) (if_rq if_ak d_rq d_we d_ak : Bool) (rest : Text)
    → fetch_row load_pa load_va (fetch_line clk if_addr if_rq if_ak d_addr d_rq d_we d_ak rest)
      ≡ some (record {
        clock = clk;
        va = (pos if_addr -ℤ pos load_pa) +ℤ pos load_va;
        tag = lit "fetch";
        stalled = is_stalled (bit d_rq) (bit d_ak);
      })
unfolding fetch_row fetch_line
fetch_row-fetch_line load_pa load_va clk if_addr d_addr if_rq if_ak d_rq d_we d_ak rest =
    bind_step _ _ (expect-append (lit "[") _) (
      bind_step _ _ (number-dec clk _) (
        bind_step _ _ (expect-append (b']' ∷ lit " fetch ") _) (
          bind_step _ _ (number-hex 7 if_addr _) (
            bind_step _ _ (expect-append (b' ' ∷ lit "if(rq") _) (
              bind_step _ _ (flag-bit if_rq _) (
                bind_step _ _ (expect-append (lit " ak") _) (
                  bind_step _ _ (flag-bit if_ak _) (
                    bind_step _ _ (expect-append (lit ") d ") _) (
                      bind_step _ _ (number-hex 7 d_addr _) (
                        bind_step _ _ (expect-append (b' ' ∷ lit "(rq") _) (
                          bind_step _ _ (flag-bit d_rq _) (
                            bind_step _ _ (expect-append (lit " we") _) (
                              bind_step _ _ (flag-bit d_we _) (
                                bind_step _ _ (expect-append (lit " ak") _) (
                                  bind_step _ _ (flag-bit d_ak _) (
                                    bind_step _ _ (expect-append (lit ")") _) (refl)))))))))))))))))

-- A line of the coarse trace is read as a row "fetch" with its clock, its address moved from the
-- physical to the virtual load address, and whether a data request is up without an answer.
pub row-fetch_line :
    (load_pa load_va clk if_addr d_addr : ℕ) (if_rq if_ak d_rq d_we d_ak : Bool) (rest : Text)
    → row load_pa load_va (fetch_line clk if_addr if_rq if_ak d_addr d_rq d_we d_ak rest)
      ≡ some (record {
        clock = clk;
        va = (pos if_addr -ℤ pos load_pa) +ℤ pos load_va;
        tag = lit "fetch";
        stalled = d_rq && not d_ak;
      })
unfolding row
row-fetch_line load_pa load_va clk if_addr d_addr if_rq if_ak d_rq d_we d_ak rest =
    rw
      (
        fetch_row-fetch_line load_pa load_va clk if_addr d_addr if_rq if_ak d_rq d_we d_ak rest,
        row,
        is_stalled-bit d_rq d_ak,
      )
      refl

pc_row-pc_line :
    (clk pc_d pc_e d_addr : ℕ) (d_rq d_we d_ak : Bool) (rest : Text)
    → pc_row (pc_line clk pc_d pc_e d_addr d_rq d_we d_ak rest)
      ≡ some (record {
        clock = clk;
        va = pos pc_d;
        tag = lit "pc_d";
        stalled = is_stalled (bit d_rq) (bit d_ak);
      })
unfolding pc_row pc_line hex8
pc_row-pc_line clk pc_d pc_e d_addr d_rq d_we d_ak rest =
    bind_step _ _ (expect-append (lit "[") _) (
      bind_step _ _ (number-dec clk _) (
        bind_step _ _ (expect-append (b']' ∷ lit " pc_d ") _) (
          bind_step _ _ (number-hex 8 pc_d _) (
            bind_step _ _ (expect-append (b' ' ∷ lit "pc_e ") _) (
              bind_step _ _ (number-hex 8 pc_e _) (
                bind_step _ _ (expect-append (b' ' ∷ lit "| d ") _) (
                  bind_step _ _ (number-hex 7 d_addr _) (
                    bind_step _ _ (expect-append (b' ' ∷ lit "rq") _) (
                      bind_step _ _ (flag-bit d_rq _) (
                        bind_step _ _ (expect-append (lit " we") _) (
                          bind_step _ _ (flag-bit d_we _) (
                            bind_step _ _ (expect-append (lit " ak") _)
                              (bind_step _ _ (flag-bit d_ak _) (refl))))))))))))))

bind_none : {A B : Type 0} (o : Option A) (f : A → Option B) → o ≡ none → (o >>= f) ≡ none
bind_none o f e = rw e refl

other_tag : (t : Text) → expect (b']' ∷ lit " fetch ") ((b']' ∷ lit " pc_d ") ++ t) ≡ none
unfolding expect lit
other_tag t = refl

fetch_row-pc_line :
    (load_pa load_va clk pc_d pc_e d_addr : ℕ) (d_rq d_we d_ak : Bool) (rest : Text)
    → fetch_row load_pa load_va (pc_line clk pc_d pc_e d_addr d_rq d_we d_ak rest) ≡ none
unfolding fetch_row pc_line
fetch_row-pc_line load_pa load_va clk pc_d pc_e d_addr d_rq d_we d_ak rest =
    bind_step _ _ (expect-append (lit "[") _)
      (bind_step _ _ (number-dec clk _) (bind_none _ _ (other_tag _)))

-- A line of the per-clock trace is read as a row "pc_d" with its clock, the address as it is, and
-- whether a data request is up without an answer.
pub row-pc_line :
    (load_pa load_va clk pc_d pc_e d_addr : ℕ) (d_rq d_we d_ak : Bool) (rest : Text)
    → row load_pa load_va (pc_line clk pc_d pc_e d_addr d_rq d_we d_ak rest)
      ≡ some (record { clock = clk; va = pos pc_d; tag = lit "pc_d"; stalled = d_rq && not d_ak })
unfolding row
row-pc_line load_pa load_va clk pc_d pc_e d_addr d_rq d_we d_ak rest =
    rw
      (
        fetch_row-pc_line load_pa load_va clk pc_d pc_e d_addr d_rq d_we d_ak rest,
        row,
        pc_row-pc_line clk pc_d pc_e d_addr d_rq d_we d_ak rest,
        is_stalled-bit d_rq d_ak,
      )
      refl
