-- ===== src/Esp/Fetched.antt =====
-- One line of koti-net against the far end of sw/linux/fake_esp.py: the page comes whole, although the
-- link destroys the first character of every burst.
use koti.Base.{
  ℕ, suc, ◌+◌, ◌<◌, ◌≡◌, refl, sym, ap, ◌∙◌, arith, Option, none, some, true, false, List, [], ◌∷◌,
  ◌++◌, length, get_elem?, get_elem?-set_at, set, subst, append_assoc, replicate, lt→ltb,
}
use koti.Base.Text.{Text, lit}
use koti.Base.Int.{pos}
use koti.Base.Strings.{int, until}
use koti.Esp.Pages.{refuse, is_scenario, broken_dns, gateway, resolve, known}
use koti.Esp.Mock.{
  Mock, Sock, new_sock, Answer, number, nothing, dns, address, Piece, text, boundary, put_out, emit,
  getaddrinfo, resolve_with, join, no_resolver,
}
use koti.Esp.Socket.{put_sock, connect_body}
use koti.Esp.Program.{
  Program, Ending, finish, ask, run_program, serve, put_config, lookup_host, dial, transmit, shut,
}
use koti.Esp.Fetch.{
  repair, ask_page, dial_page, collect, show_marked, show_page, limit_bytes, want_address, after,
}
use koti.Esp.Calls.{ask_lem, connect_lem, send_lem, close_lem}
use koti.Esp.Collected.{collected, collect_lem}

-- What `print('zz', name)` sends.
abbrev pub marker_text : Text → Text
marker_text name = join (lit " ") (lit "zz" ∷ name ∷ []) ++ lit "\n"

-- The output behind the reads.
abbrev pub page_pieces : List ℕ → List Piece
page_pieces b =
    text (marker_text (lit "KOTI-BEGIN"))
    ∷ text b
    ∷ text (join (lit " ") [] ++ lit "\n")
    ∷ text (marker_text (lit "KOTI-END"))
    ∷ []

four_more :
    (out : List Piece) (a b c d : Piece)
    → (((out ++ a ∷ []) ++ b ∷ []) ++ c ∷ []) ++ d ∷ [] ≡ out ++ a ∷ b ∷ c ∷ d ∷ []
four_more out a b c d = simp (append_assoc)

-- A line that ended without an exception, by what it left.
pub record Ended {S : Type 0} (s : S) (o : Ending S) (out : List Piece) : Type 0 where
  pub kept : o.kept ≡ s
  pub error : o.error ≡ none
  pub printed : o.mock.out ≡ out

module _ {S : Type 0} (i : ℕ) (s : S) (b : List ℕ) where
  show_page-whole : length b < limit_bytes → show_page i s b ≡ show_marked i s b
  unfolding show_page
  show_page-whole fits = rw (lt→ltb _ _ fits) refl

  show_marked-Ended :
      (m : Mock) (k : Sock)
      → get_elem? m.heap i ≡ some k
      → Ended s (run_program (show_marked i s b) m) (m.out ++ page_pieces b)
  unfolding show_marked run_program serve emit
  show_marked-Ended m k found =
      let begin = text (marker_text (lit "KOTI-BEGIN")) in
      let blank = text (join (lit " ") [] ++ lit "\n") in
      let end = text (marker_text (lit "KOTI-END")) in
      let m' = put_out end (put_out blank (put_out (text b) (put_out begin m))) in
      let closed = put_sock i (record k { connected = false }) m' in
      let done : run_program (show_marked i s b) m
          ≡ record { kept = s; error = none; mock = closed } =
        ask_lem (shut i) (λ u. after u s (finish s)) m' closed nothing (close_lem i m' k found) in
      record {
        kept = ap (λ (o : Ending S). o.kept) done;
        error = ap (λ (o : Ending S). o.error) done;
        printed = ap (λ (o : Ending S). o.mock.out) done ∙ four_more m.out begin (text b) blank end;
      }

  pub show_page-Ended :
      (m : Mock) (k : Sock)
      → get_elem? m.heap i ≡ some k
      → length b < limit_bytes
      → Ended s (run_program (show_page i s b) m) (m.out ++ page_pieces b)
  show_page-Ended m k found fits = rw (show_page-whole fits) (show_marked-Ended m k found)

pub gateway-resolves :
    (host : Text) (port : ℕ) {a : Text}
    → resolve host known ≡ some a
    → resolve_with (some gateway) host port ≡ address a port
unfolding resolve_with
gateway-resolves host port named =
    let number : int (until b'.' gateway) ≡ some (pos 172) = unfold int until lit in refl in
    rw (number, named, resolve_with) refl

pub repair_broken :
    {S : Type 0} (a b : Text) (s : S) (p : Program S)
    → repair (a ∷ b ∷ gateway ∷ broken_dns ∷ []) s p
      ≡ ask (put_config (a ∷ b ∷ gateway ∷ gateway ∷ [])) (λ r. after r s p)
unfolding repair int until no_resolver lit
repair_broken a b s p = refl

-- A socket that was dialed, before anything is read.
abbrev pub dialed : Option ℕ → List ℕ → Sock
dialed t buf = record { timeout = t; connected = true; dead = false; buf = buf; pos = 0 }

pub get_elem?-snoc {ℓ} :
    {A : Type ℓ} (xs : List A) (x : A) → get_elem? (xs ++ x ∷ []) (length xs) ≡ some x
get_elem?-snoc [] x = refl
get_elem?-snoc (y ∷ xs) x = get_elem?-snoc xs x

module _ {S : Type 0} (fuel : ℕ) (host : Text) (request : List ℕ) (s : S) where
  -- What the line prints: the marker of the connection, the boundaries of the reads, the page.
  abbrev pub fetched_out : Mock → ℕ → List Piece
  fetched_out m reads =
      ((m.out ++ text (marker_text (lit "KOTI-CN")) ∷ []) ++ replicate (suc reads) boundary)
      ++ page_pieces (connect_body m.scenario)

  ask_page-Ended :
      (m : Mock) (i : ℕ) (t : Option ℕ) (buf : List ℕ)
      → get_elem? m.heap i ≡ some (dialed t buf)
      → length (connect_body m.scenario) < fuel
      → length (connect_body m.scenario) < limit_bytes
      → (reads : ℕ) × Ended s (run_program (ask_page fuel request i s) m) (fetched_out m reads)
  unfolding ask_page run_program serve emit
  ask_page-Ended m i t buf found enough fits =
      let page = connect_body m.scenario in
      let m1 = put_out (text (marker_text (lit "KOTI-CN"))) m in
      let k = dialed t page in
      let m2 = put_sock i k m1 in
      let sent : run_program (ask_page fuel request i s) m
          ≡ run_program (collect fuel i [] s (show_page i s)) m2 =
        ask_lem (transmit i request) (λ r. after r s (collect fuel i [] s (show_page i s))) m1 m2
          (number (length request)) (send_lem i m1 (dialed t buf) found refl request refl) in
      let (heap, last, reads, at, leads) = collected i s (show_page i s) (
        collect_lem i s (show_page i s) fuel [] m2 k (get_elem?-set_at m.heap i k found) refl refl
          enough (omega (arith, fits))) in
      let m3 = record m2 { heap = heap; out = m2.out ++ replicate (suc reads) boundary } in
      (
        reads,
        subst (λ (o : Ending S). Ended s o (fetched_out m reads)) (sym (sent ∙ leads))
            (show_page-Ended i s page m3 last at fits),
      )

  pub dial_page-Ended :
      (m : Mock) (i : ℕ) (t : Option ℕ) {a : Text}
      → get_elem? m.heap i ≡ some (record new_sock { timeout = t })
      → dns m ≡ some gateway
      → resolve host known ≡ some a
      → is_scenario m.scenario refuse ≡ false
      → length (connect_body m.scenario) < fuel
      → length (connect_body m.scenario) < limit_bytes
      → (reads : ℕ) × Ended s
          (run_program (dial_page fuel host request i s) m)
          (fetched_out m reads)
  unfolding dial_page serve getaddrinfo
  dial_page-Ended m i t {a} found router named open_port enough fits =
      let k = dialed t [] in
      let m1 = record m {
        heap = set m.heap i k;
        connects = m.connects + 1;
        socks = m.socks ++ i ∷ [];
      } in
      let looked_up =
        ask_lem (lookup_host host 80)
          (λ r. want_address r s (λ _. ask (dial i) (λ c. after c s (ask_page fuel request i s)))) m
          m (address a 80)
          (ap (λ (d : Option Text). (resolve_with d host 80, m)) router
            ∙ ap (λ (r : Answer). (r, m)) (gateway-resolves host 80 named)) in
      let dialing =
        ask_lem (dial i) (λ c. after c s (ask_page fuel request i s)) m m1 nothing
          (connect_lem i m (record new_sock { timeout = t }) found refl open_port) in
      let (reads, e) = ask_page-Ended m1 i t [] (get_elem?-set_at m.heap i k found) enough fits in
      (
        reads,
        subst (λ (o : Ending S). Ended s o (fetched_out m reads)) (sym (looked_up ∙ dialing)) e,
      )
