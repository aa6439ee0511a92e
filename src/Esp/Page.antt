-- ===== src/Esp/Page.antt =====
-- What the shell reads from the link when koti-net fetches a page from the far end of
-- sw/linux/fake_esp.py.
use koti.Base.{
  ℕ, zero, suc, ◌<◌, ◌≡◌, refl, sym, ap, ◌∙◌, subst, arith, some, false, List, [], ◌∷◌, ◌++◌,
  length, get_elem?-set_at, append-nil, replicate, if_both,
}
use koti.Base.Text.{Text, lit}
use koti.Base.Strings.{starts_with, rstrip}
use koti.Esp.Pages.{
  Scenario, refuse, no_join, empty, no_newline, is_scenario, broken_dns, gateway, resolve, known,
}
use koti.Esp.Mock.{
  Mock, new_sock, nothing, config, socket_ref, Piece, text, boundary, set_config, join,
}
use koti.Esp.Socket.{open_socket, put_sock, connect_body}
use koti.Esp.Program.{
  Program, Ending, ask, run_program, serve, get_config, put_config, make_socket, set_timeout,
}
use koti.Esp.Fetch.{
  fetch, open_page, dial_page, limit_bytes, want_config, want_socket, after, repair,
}
use koti.Esp.Calls.{ask_lem, settimeout_lem}
use koti.Esp.Fetched.{
  Ended, fetched_out, marker_text, page_pieces, dial_page-Ended, repair_broken, get_elem?-snoc,
}
use koti.Esp.Loop.{World, finish_line, emit_error, flush, burst, prompt, idle}

connect_body-lt : (scenario : Scenario) → length (connect_body scenario) < limit_bytes
unfolding connect_body rstrip lit
connect_body-lt scenario =
    if_both (λ (b : List ℕ). length b < limit_bytes) (is_scenario scenario empty) _ _ (omega arith)
      (if_both (λ (b : List ℕ). length b < limit_bytes) (is_scenario scenario no_newline) _ _
        (omega arith) (omega arith))

-- A far end that a line finds at its start, in a scenario in which `get` can work: the lease is there
-- with the router and the broken resolver, the terminal has joined and the server accepts.
pub record IsReady (m : Mock) (host : Text) : Type 0 where
  pub ip : Text
  pub mask : Text
  pub server : Text
  pub lease : m.cfg ≡ ip ∷ mask ∷ gateway ∷ broken_dns ∷ []
  pub named : resolve host known ≡ some server
  pub joined : is_scenario m.scenario no_join ≡ false
  pub listens : is_scenario m.scenario refuse ≡ false

module _ {S : Type 0} (fuel : ℕ) (host : Text) (request : List ℕ) (s : S) (m : Mock)
    (r : IsReady m host) (enough : length (connect_body m.scenario) < fuel) where
  fetch-Ended :
      (reads : ℕ) × Ended s
        (run_program (fetch fuel host request s) m)
        (fetched_out fuel host request s m reads)
  unfolding fetch open_page serve open_socket set_config
  fetch-Ended =
      let t = r.ip ∷ r.mask ∷ gateway ∷ gateway ∷ [] in
      let m1 = (set_config t m).1 in
      let i = length m1.heap in
      let m2 = record m1 { heap = m1.heap ++ new_sock ∷ [] } in
      let k = record new_sock { timeout = some 20 } in
      let m3 = put_sock i k m2 in
      let found = get_elem?-snoc m1.heap new_sock in
      let rest = open_page fuel host request s in
      let got =
        ask_lem get_config (λ g. want_config g s (λ cfg. repair cfg s rest)) m m (config m.cfg)
          (rw r.joined refl) in
      let broken : repair m.cfg s rest ≡ ask (put_config t) (λ a. after a s rest) =
        ap (λ (c : List Text). repair c s rest) r.lease ∙ repair_broken r.ip r.mask s rest in
      let repaired = ask_lem (put_config t) (λ a. after a s rest) m m1 nothing (rw r.joined refl) in
      let opened =
        ask_lem make_socket
          (λ o.
            want_socket o s (λ j.
              ask (set_timeout j (some 20)) (λ a. after a s (dial_page fuel host request j s))))
          m1 m2 (socket_ref i) refl in
      let timed =
        ask_lem (set_timeout i (some 20)) (λ a. after a s (dial_page fuel host request i s)) m2 m3
          nothing (settimeout_lem i m2 new_sock found (some 20)) in
      let (reads, e) =
        dial_page-Ended fuel host request s m3 i (some 20) (get_elem?-set_at m2.heap i k found) refl
          r.named r.listens enough (connect_body-lt m.scenario) in
      (
        reads,
        subst (λ (o : Ending S). Ended s o (fetched_out fuel host request s m reads))
            (sym (got ∙ ap (λ (p : Program S). run_program p m) broken ∙ repaired ∙ opened ∙ timed))
            e,
      )

flush-boundaries :
    (n : ℕ) (out : List Piece) (cap : List ℕ)
    → flush (replicate n boundary ++ out) [] cap ≡ flush out [] cap
unfolding flush burst
flush-boundaries zero out cap = refl
flush-boundaries (suc n) out cap =
    ap (flush (replicate n boundary ++ out) []) (append-nil cap) ∙ flush-boundaries n out cap

-- The page between its two markers, in one burst.
abbrev pub page_burst : List ℕ → Text
page_burst page =
    ((marker_text (lit "KOTI-BEGIN") ++ page) ++ (join (lit " ") [] ++ lit "\n"))
    ++ marker_text (lit "KOTI-END")

module _ {S : Type 0} (exec : Text → S → Program S) (line : Text) (w : World S) where
  flush-fetched :
      (fuel : ℕ) (host : Text) (request : List ℕ) (s : S) (reads : ℕ)
      → w.mock.out ≡ []
      → flush (fetched_out fuel host request s w.mock reads) [] w.cap
        ≡ burst
            (page_burst (connect_body w.mock.scenario))
            (burst (marker_text (lit "KOTI-CN")) w.cap)
  unfolding flush
  flush-fetched fuel host request s reads none_yet =
      let page = connect_body w.mock.scenario in
      ap
        (λ (out : List Piece).
          flush
            (((out ++ text (marker_text (lit "KOTI-CN")) ∷ []) ++ replicate (suc reads) boundary)
              ++ page_pieces page)
            [] w.cap)
        none_yet
      ∙ flush-boundaries reads (page_pieces page) (burst (marker_text (lit "KOTI-CN")) w.cap)

  -- Where a line is koti-net's program, for a name that the far end knows and after a lease with the
  -- broken resolver: on a far end that has joined and a server that listens, it ends without an exception,
  -- and the capture gains the marker of the connection and then, in one burst, the whole page between its
  -- markers. Each burst loses its first character, which is a `z` of a marker.
  pub finish_line-fetch :
      (fuel : ℕ) (host : Text) (request : List ℕ) (s : S)
      → exec line w.kept_state ≡ fetch fuel host request s
      → starts_with (lit "import ") line ≡ false
      → w.mock.out ≡ []
      → IsReady w.mock host
      → length (connect_body w.mock.scenario) < fuel
      → ((finish_line exec line w).cap
          ≡ burst prompt (
              burst
                (page_burst (connect_body w.mock.scenario))
                (burst (marker_text (lit "KOTI-CN")) w.cap)))
        × ((finish_line exec line w).kept_state ≡ s)
        × ((finish_line exec line w).phase ≡ idle)
  unfolding finish_line
  finish_line-fetch fuel host request s runs code none_yet r enough =
      let (reads, e) = fetch-Ended fuel host request s w.mock r enough in
      let printed : (emit_error (run_program (fetch fuel host request s) w.mock).error
            (run_program (fetch fuel host request s) w.mock).mock).out
          ≡ fetched_out fuel host request s w.mock reads =
        rw (e.error, emit_error) e.printed in
      rw (code, runs, finish_line)
        (
          ap (λ (out : List Piece). burst prompt (flush out [] w.cap)) printed
              ∙ ap (burst prompt) (flush-fetched fuel host request s reads none_yet),
          e.kept,
          refl,
        )
