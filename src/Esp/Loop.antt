-- ===== src/Esp/Loop.antt =====
-- The loop of `main` of sw/linux/fake_esp.py as a machine that takes one step for each look at the
-- clock and at the file through which the shell writes. What the clock says, whether the stop file is
-- there and what the shell has done to the file by then is the step's moment.
use koti.Base.{
  ℕ, ◌+◌, ◌-◌, Option, none, some, Bool, true, false, ◌&&◌, ◌||◌, ◌==◌, not, ltb, List, [], ◌∷◌,
  ◌++◌, map, drop, length, take, if◌then◌else◌,
}
use koti.Base.Text.{Text, lit}
use koti.Base.Strings.{starts_with, behind, rstrip}
use koti.Esp.Pages.{Scenario, wedge, is_scenario}
use koti.Esp.Mock.{Mock, new_mock, Piece, Exc, text, boundary, emit, dhcp_tick}
use koti.Esp.Program.{Program, run_program}
use koti.Esp.Damage.{damage, hits_continuation, program_line}

-- What the shell has done since the last look: nothing, put bytes in the place of the file's, or the
-- file cannot be opened at this look.
pub data Access : Type 0 where
  kept : Access
  holds : List ℕ → Access
  denied : Access

-- The two looks of a round are that of `eat_interrupt` and that of `take_line`.
pub record Moment : Type 0 where
  pub now : ℕ
  pub stop : Bool
  pub first : Access
  pub second : Access

-- Where the loop stands: at its test; in `busy` until a time in milliseconds, before the execution of
-- a line; behind the loop; or ended by an exception.
pub data LoopPhase : Type 0 where
  idle : LoopPhase
  busy : ℕ → Text → LoopPhase
  stopped : LoopPhase
  crashed : LoopPhase

pub record World (S : Type 0) : Type 0 where
  pub mock : Mock
  pub kept_state : S
  pub dev : List ℕ
  pub cap : List ℕ
  pub phase : LoopPhase

-- The bytes that a look finds; `none` is an OSError.
unfoldable pub look : Access → List ℕ → Option (List ℕ)
look kept dev = some dev
look (holds d) dev = some d
look denied dev = none

-- The file after a look that takes nothing.
unfoldable pub file_after : Access → List ℕ → List ℕ
file_after (holds d) dev = d
file_after kept dev = dev
file_after denied dev = dev

-- `encode("latin1", "replace")`.
abbrev latin1 : Text → List ℕ
latin1 = map (λ c. if ltb c 256 then c else b'?')

-- `burst`: the capture gains all but the first character.
unfoldable pub burst : Text → List ℕ → List ℕ
burst s cap = cap ++ latin1 (drop 1 s)

abbrev pub prompt : Text
prompt = lit ">>> "

-- `d.endswith(b"\r\n")`.
unfoldable pub ends_line : List ℕ → Bool
ends_line [] = false
ends_line (c ∷ []) = false
ends_line (c ∷ (d ∷ [])) = c == b'\r' && d == b'\n'
ends_line (c ∷ (d ∷ (e ∷ s))) = ends_line (d ∷ (e ∷ s))

-- `take_line`: the line, of which the file then is empty.
unfoldable pub take_line : Option (List ℕ) → Option Text
unfolding ends_line rstrip
take_line none = none
take_line (some d) = if ends_line d then some (rstrip (λ c. c == b'\r' || c == b'\n') d) else none

-- `eat_interrupt`: what the file holds afterwards, if a Ctrl-C was there.
unfoldable pub eat_interrupt : Option (List ℕ) → Option (List ℕ)
unfolding behind
eat_interrupt none = none
eat_interrupt (some d) = behind (3 ∷ []) d

-- The bursts of a command's output: a boundary ends one, and so does the end.
unfoldable pub flush : List Piece → Text → List ℕ → List ℕ
unfolding burst
flush [] seg cap = burst seg cap
flush (text s ∷ out) seg cap = flush out (seg ++ s) cap
flush (boundary ∷ out) seg cap = flush out [] (burst seg cap)

-- How long the far end is deaf.
unfoldable pub busy_time : Scenario → Text → ℕ
unfolding starts_with is_scenario
busy_time scenario line =
    if is_scenario scenario wedge && starts_with (lit "exec(") line
    then 60000
    else if starts_with (lit "exec(") line
    then 1200
    else 100

-- The traceback of an exception that left the line.
unfoldable pub emit_error : Option Exc → Mock → Mock
unfolding emit
emit_error none m = m
emit_error (some e) m = emit ((e.class ++ lit ": " ++ e.message) ∷ []) (lit " ") (lit "\n") (
    emit (lit "  File \"<stdin>\", line 1, in <module>" ∷ []) (lit " ") (lit "\n")
      (emit (lit "Traceback (most recent call last):" ∷ []) (lit " ") (lit "\n") m))

module _ {S : Type 0} where
  -- A line is taken and echoed, and the command boundary lets the DHCP client run.
  unfoldable pub begin_line : ℕ → Text → Mock → World S → World S
  unfolding dhcp_tick burst busy_time
  begin_line now line m w =
      let m' = record m { lines = m.lines ++ line ∷ []; out = [] } in
      let echoed = burst (line ++ lit "\r\n") w.cap in
      elim (dhcp_tick m') [
        | none ↦ record w { mock = m'; cap = echoed; phase = crashed }
        | some ticked ↦ record w {
          mock = ticked;
          cap = echoed;
          phase = busy (now + busy_time m.scenario line) line;
        }
      ]

  -- The rest of a round of the loop, for a line that was taken.
  unfoldable pub receive_line : ℕ → Text → World S → World S
  unfolding begin_line burst damage hits_continuation program_line
  receive_line now line w =
      if w.mock.continuing
      then record w {
        mock = record (w.mock) { lines = w.mock.lines ++ line ∷ [] };
        cap = burst (lit "... ") (burst (line ++ lit "\r\n") w.cap);
      }
      else let (m, spoilt) = damage w.mock line in
        if hits_continuation m spoilt
        then record w {
          mock = record m { garbles = m.garbles + 1; continuing = true };
          cap = burst (lit "... ") (burst (take (length spoilt - 1) spoilt ++ lit "\r\n") w.cap);
        }
        else let (m', last) = program_line (m, spoilt) in begin_line now last m' w

  -- A Ctrl-C at the prompt, and one that ends a command.
  unfoldable pub interrupt_idle : List ℕ → World S → World S
  unfolding burst
  interrupt_idle rest w = record w {
    mock = record (w.mock) { interrupts = w.mock.interrupts + 1; continuing = false };
    dev = rest;
    cap = burst prompt (burst (lit "zz\r\n") w.cap);
  }

  unfoldable pub interrupt_busy : List ℕ → World S → World S
  unfolding burst
  interrupt_busy rest w = record w {
    mock = record (w.mock) { out = []; interrupts = w.mock.interrupts + 1 };
    dev = rest;
    cap = burst prompt (burst (lit "zzKeyboardInterrupt\r\n") w.cap);
    phase = idle;
  }

  -- The time is up: the line is executed and its output is sent.
  unfoldable pub finish_line : (Text → S → Program S) → Text → World S → World S
  unfolding burst flush run_program emit_error starts_with
  finish_line exec line w =
      let r =
        if starts_with (lit "import ") line
        then record { kept = w.kept_state; error = none; mock = w.mock }
        else run_program (exec line w.kept_state) w.mock in
      let m = emit_error r.error r.mock in
      record w {
        mock = m;
        kept_state = r.kept;
        cap = burst prompt (flush m.out [] w.cap);
        phase = idle;
      }

  -- A look for a line, at the prompt and while the far end is deaf.
  unfoldable pub idle_line : Option Text → ℕ → List ℕ → World S → World S
  unfolding receive_line
  idle_line none now dev w = record w { dev = dev }
  idle_line (some line) now dev w = receive_line now line (record w { dev = [] })

  unfoldable pub busy_line : Option Text → List ℕ → World S → World S
  busy_line none dev w = record w { dev = dev }
  busy_line (some lost) dev w = record w {
    mock = record (w.mock) { overruns = w.mock.overruns ++ lost ∷ [] };
    dev = [];
  }

  -- A round of either loop, behind its test, by whether a Ctrl-C was there.
  unfoldable pub idle_round : Option (List ℕ) → Moment → World S → World S
  unfolding interrupt_idle idle_line look file_after take_line
  idle_round (some rest) t w = interrupt_idle rest w
  idle_round none t w =
      let dev = file_after t.first w.dev in
      idle_line (take_line (look t.second dev)) t.now (file_after t.second dev) w

  unfoldable pub busy_round : Option (List ℕ) → Moment → World S → World S
  unfolding interrupt_busy busy_line look file_after take_line
  busy_round (some rest) t w = interrupt_busy rest w
  busy_round none t w =
      let dev = file_after t.first w.dev in
      busy_line (take_line (look t.second dev)) (file_after t.second dev) w

  -- One step. `exec` is Python's, on what it keeps between the lines.
  unfoldable pub step_in : LoopPhase → (Text → S → Program S) → ℕ → Moment → World S → World S
  unfolding idle_round busy_round look eat_interrupt finish_line
  step_in idle exec deadline t w =
      if ltb t.now deadline && not t.stop
      then idle_round (eat_interrupt (look t.first w.dev)) t w
      else record w { phase = stopped }
  step_in (busy end line) exec deadline t w =
      if ltb t.now end
      then busy_round (eat_interrupt (look t.first w.dev)) t w
      else finish_line exec line w
  step_in stopped exec deadline t w = w
  step_in crashed exec deadline t w = w

  unfoldable pub loop_step : (Text → S → Program S) → ℕ → Moment → World S → World S
  unfolding step_in
  loop_step exec deadline t w = step_in w.phase exec deadline t w

  unfoldable pub run : (Text → S → Program S) → ℕ → List Moment → World S → World S
  unfolding loop_step
  run exec deadline [] w = w
  run exec deadline (t ∷ ts) w = run exec deadline ts (loop_step exec deadline t w)

  -- The state before the loop.
  unfoldable pub start : Scenario → S → World S
  unfolding new_mock
  start scenario s = record {
    mock = new_mock scenario;
    kept_state = s;
    dev = [];
    cap = [];
    phase = idle;
  }
