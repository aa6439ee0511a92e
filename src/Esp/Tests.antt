-- ===== src/Esp/Tests.antt =====
-- Runs of the model of sw/linux/fake_esp.py on concrete inputs, and instances of its theorems.
use koti.Base.{
  ℕ, ◌<◌, ◌≡◌, refl, sym, subst, arith, some, false, List, [], ◌∷◌, ◌++◌, length, get_elem?,
  if◌then◌else◌,
}
use Prim.Native.String.{String}
use koti.Base.Int.{pos, negsuc}
use koti.Base.Text.{Text, lit, codes}
use koti.Base.Strings.{starts_with}
use koti.Esp.Pages.{plain, is_scenario, resolve}
use koti.Esp.Mock.{raises, os_error, getaddrinfo}
use koti.Esp.Socket.{send, recv, connect_body}
use koti.Esp.Program.{Program, finish}
use koti.Esp.Fetch.{fetch}
use koti.Esp.Loop.{
  Moment, Access, kept, holds, idle, busy, start, loop_step, run, finish_line, burst, prompt, look,
  eat_interrupt, LoopPhase,
}
use koti.Esp.Split.{Leases}
use koti.Esp.Fetched.{marker_text}
use koti.Esp.Transaction.{socket_error, run-raises}
use koti.Esp.Counted.{IsCounted}
use koti.Esp.Counts.{run-IsCounted}
use koti.Esp.Resync.{IsFresh, run-resync, Looks}
use koti.Esp.Page.{IsReady, page_burst, finish_line-fetch}

-- The Python of these runs keeps nothing, and its one program is the fetch of a known page.
abbrev python : Text → Unit {0} → Program (Unit {0})
python line s =
    if starts_with (lit "exec(") line then fetch 400 (lit "example.com") [] s else finish s

abbrev at_once : ℕ → Access → Moment
at_once now first = record { now = now; stop = false; first = first; second = kept }

abbrev typed : ℕ → String → Moment
typed now s = at_once now (holds (codes s ++ b'\r' ∷ b'\n' ∷ []))

-- Two lines, the second not executed yet.
abbrev session : List Moment
session = typed 0 "a=1" ∷ at_once 50 kept ∷ at_once 100 kept ∷ typed 200 "exec(c1)" ∷ []

session_phase : (run python 1000 session (start plain tt)).phase ≡ busy 1400 (codes "exec(c1)")
unfolding run start starts_with lit
session_phase = refl

session_cap :
    (run python 1000 session (start plain tt)).cap
    ≡ codes "=1\r\n" ++ (codes ">> " ++ codes "xec(c1)\r\n")
unfolding run start starts_with lit
session_cap = refl

session-Leases : Leases (run python 1000 session (start plain tt)).mock
unfolding run start starts_with lit is_scenario
session-Leases = refl

abbrev interrupted : Moment
interrupted = at_once 300 (holds (3 ∷ codes "b=2\r\n"))

session-Looks : Looks (run python 1000 session (start plain tt)).phase 1000 interrupted
session-Looks =
    subst (λ (q : LoopPhase). Looks q 1000 interrupted) (sym session_phase) (omega arith)

interrupt_there :
    eat_interrupt
      (look (holds (3 ∷ codes "b=2\r\n")) (run python 1000 session (start plain tt)).dev)
    ≡ some (codes "b=2\r\n")
unfolding eat_interrupt look
interrupt_there = refl

session_runs :
    python (codes "exec(c1)") (run python 1000 session (start plain tt)).kept_state
    ≡ fetch 400 (lit "example.com") [] tt
unfolding starts_with lit
session_runs = refl

session_code : starts_with (lit "import ") (codes "exec(c1)") ≡ false
unfolding starts_with lit
session_code = refl

session_out : (run python 1000 session (start plain tt)).mock.out ≡ []
unfolding run start starts_with lit
session_out = refl

session-IsReady : IsReady (run python 1000 session (start plain tt)).mock (lit "example.com")
unfolding run start starts_with lit resolve is_scenario
session-IsReady = record {
  ip = lit "172.20.10.2";
  mask = lit "255.255.255.240";
  server = lit "93.184.216.34";
  lease = refl;
  named = refl;
  joined = refl;
  listens = refl;
}

session_enough :
    length (connect_body (run python 1000 session (start plain tt)).mock.scenario) < 400
unfolding run start starts_with lit connect_body
session_enough = omega arith

run-raises_example :
    let m = (run python 1000 session (start plain tt)).mock in
    ((send 0 [] m).0 ≡ raises (socket_error (get_elem? m.heap 0) (pos 128)))
    × ((recv 0 256 m).0 ≡ raises (socket_error (get_elem? m.heap 0) (pos 110)))
    × ((getaddrinfo (lit "example.com") 80 m).0 ≡ raises (os_error (negsuc 201)))
run-raises_example =
    run-raises python 1000 session plain tt session_phase session-Leases 0 256 80 []
      (lit "example.com")

run-IsCounted_example :
    IsCounted (run python 1000 (session ++ at_once 1400 kept ∷ []) (start plain tt)).mock
run-IsCounted_example = run-IsCounted python 1000 (session ++ at_once 1400 kept ∷ []) plain tt

-- A Ctrl-C in the middle of a command, with more behind it.
run-resync_example :
    IsFresh
      (run python 1000 session (start plain tt))
      (codes "b=2\r\n")
      (loop_step python 1000 interrupted (run python 1000 session (start plain tt)))
run-resync_example =
    run-resync python 1000 session plain tt interrupted session-Looks interrupt_there

finish_line-fetch_example :
    let w = run python 1000 session (start plain tt) in
    ((finish_line python (codes "exec(c1)") w).cap
      ≡ burst prompt (
          burst
            (page_burst (connect_body w.mock.scenario))
            (burst (marker_text (lit "KOTI-CN")) w.cap)))
    × ((finish_line python (codes "exec(c1)") w).kept_state ≡ tt)
    × ((finish_line python (codes "exec(c1)") w).phase ≡ idle)
finish_line-fetch_example =
    finish_line-fetch python (codes "exec(c1)") (run python 1000 session (start plain tt)) 400
      (lit "example.com") [] tt session_runs session_code session_out session-IsReady session_enough
