-- ===== src/Esp/Collected.antt =====
-- The read loop of koti-net's program collects all that the far end's socket has left.
use koti.Base.{
  ℕ, zero, suc, ◌+◌, ◌<◌, ◌≡◌, refl, sym, ap, ◌∙◌, inl, inr, ◌⊎◌, arith, Bool, if◌then◌else◌, some,
  true, false, List, [], ◌∷◌, ◌++◌, length, get_elem?, get_elem?-set_at, take, drop, drop-drop,
  length-take, length-drop, length-append, append-nil, append_assoc, replicate, ltb, lt→ltb,
}
use koti.Esp.Mock.{Mock, Sock, bytes, Piece, boundary, put_out}
use koti.Esp.Socket.{put_sock, next_bytes}
use koti.Esp.Program.{receive, serve, Program, Ending, ask, run_program}
use koti.Esp.Fetch.{collect, limit_bytes, want_bytes}
use koti.Esp.Calls.{ask_lem, recv_lem}

List-cases {ℓ} :
    {A : Type ℓ} (xs : List A) → (xs ≡ []) ⊎ ((x : A) × (rest : List A) × (xs ≡ x ∷ rest))
List-cases [] = inl refl
List-cases (x ∷ xs) = inr (x, xs, refl)

take-eq-nil {ℓ} : {A : Type ℓ} (n : ℕ) (xs : List A) → take (suc n) xs ≡ [] → xs ≡ []
take-eq-nil n [] h = refl
take-eq-nil n (x ∷ xs) h = absurd (cc)

append-drop_taken {ℓ} :
    {A : Type ℓ} (n : ℕ) (xs : List A) → take n xs ++ drop (length (take n xs)) xs ≡ xs
append-drop_taken zero xs = refl
append-drop_taken (suc n) [] = refl
append-drop_taken (suc n) (x ∷ xs) = ap (λ t. x ∷ t) (append-drop_taken n xs)

replicate-boundaries :
    (out : List Piece) (n : ℕ)
    → (out ++ boundary ∷ []) ++ replicate n boundary ≡ out ++ replicate (suc n) boundary
replicate-boundaries out n = append_assoc out (boundary ∷ []) (replicate n boundary)

module _ {S : Type 0} (i : ℕ) (s : S) (next : List ℕ → Program S) where
  -- Where the loop's program goes on: in a state that only the socket's position and the boundaries of
  -- the reads, one at least, set apart.
  pub record Collected (m : Mock) (page : List ℕ) (o : Ending S) : Type 0 where
    pub heap : List Sock
    pub last : Sock
    pub reads : ℕ
    pub found : get_elem? heap i ≡ some last
    pub leads :
        o
        ≡ run_program
            (next page)
            (record m { heap = heap; out = m.out ++ replicate (suc reads) boundary })

  -- The same as a tuple.
  pub collected :
      {m : Mock} {page : List ℕ} {o : Ending S}
      → Collected m page o
      → (heap : List Sock) × (last : Sock) × (reads : ℕ) × (get_elem? heap i ≡ some last)
        × (o
            ≡ run_program
                (next page)
                (record m { heap = heap; out = m.out ++ replicate (suc reads) boundary }))
  collected c = (c.heap, c.last, c.reads, c.found, c.leads)

  pub collect_lem :
      (fuel : ℕ) (b : List ℕ) (m : Mock) (k : Sock)
      → get_elem? m.heap i ≡ some k
      → k.connected ≡ true
      → k.dead ≡ false
      → length (drop k.pos k.buf) < fuel
      → length b + length (drop k.pos k.buf) < limit_bytes
      → Collected m (b ++ drop k.pos k.buf) (run_program (collect fuel i b s next) m)
  unfolding collect serve
  collect_lem zero b m k found on alive enough fits = absurd (omega arith)
  collect_lem (suc fuel) b m k found on alive enough fits =
      let left = drop k.pos k.buf in
      let chunk = next_bytes 256 k in
      let k' = record k { pos = k.pos + length chunk } in
      let m' = put_sock i k' (put_out boundary m) in
      let found' : get_elem? m'.heap i ≡ some k' = get_elem?-set_at m.heap i k' found in
      let below : ltb (length b) limit_bytes ≡ true = lt→ltb _ _ (omega (arith, fits)) in
      let answered : serve (receive i 256) m ≡ (bytes chunk, m') =
        recv_lem i m k found alive 256 on in
      let go = λ (d : List ℕ). elim d as (λ d. Program S) [
        | [] ↦ next b
        | c ∷ r ↦ collect fuel i (b ++ c ∷ r) s next
      ] in
      let stepped : run_program (collect (suc fuel) i b s next) m ≡ run_program (go chunk) m' =
        ap
          (λ (t : Bool).
            run_program (if t then ask (receive i 256) (λ a. want_bytes a s go) else next b) m)
          below
        ∙ ask_lem (receive i 256) (λ a. want_bytes a s go) m m' (bytes chunk) answered in
      elim (List-cases chunk) [
        | inl over ↦
            let page : b ++ left ≡ b =
              ap (λ (l : List ℕ). b ++ l) (take-eq-nil 255 left over) ∙ append-nil b in
            record {
              heap = m'.heap;
              last = k';
              reads = 0;
              found = found';
              leads =
                  stepped
                  ∙ ap (λ (d : List ℕ). run_program (go d) m') over
                  ∙ ap (λ (l : List ℕ). run_program (next l) m') (sym page);
            }
        | inr (c, r, some_left) ↦
            let rest = drop (k.pos + length chunk) k.buf in
            let sizes : length left ≡ suc (length r) + length rest = omega (
              arith,
              length-drop k.pos k.buf,
              length-drop (k.pos + length chunk) k.buf,
              ap (length {A = ℕ}) some_left,
              length-take 256 left,
            ) in
            let ih =
              collect_lem fuel (b ++ c ∷ r) m' k' found' on alive (omega (arith, enough, sizes))
                (omega (arith, fits, sizes, length-append b (c ∷ r))) in
            let page : (b ++ c ∷ r) ++ rest ≡ b ++ left =
              append_assoc b (c ∷ r) rest
              ∙ ap (λ (l : List ℕ). b ++ (l ++ rest)) (sym some_left)
              ∙ ap (λ (l : List ℕ). b ++ (chunk ++ l)) (sym (drop-drop k.pos (length chunk) k.buf))
              ∙ ap (λ (l : List ℕ). b ++ l) (append-drop_taken 256 left) in
            record {
              heap = ih.heap;
              last = ih.last;
              reads = suc ih.reads;
              found = ih.found;
              leads =
                  stepped
                  ∙ ap (λ (d : List ℕ). run_program (go d) m') some_left
                  ∙ ih.leads
                  ∙ ap
                      (λ (l : List ℕ). run_program (next l) (record m' {
                        heap = ih.heap;
                        out = (m.out ++ boundary ∷ []) ++ replicate (suc ih.reads) boundary;
                      }))
                      page
                  ∙ ap
                      (λ (out : List Piece).
                        run_program (next (b ++ left)) (record m { heap = ih.heap; out = out }))
                      (replicate-boundaries m.out (suc ih.reads));
            }
      ]
