-- ===== src/Esp/Damage.antt =====
-- The faults of sw/linux/fake_esp.py: what `main` does to a line before the far end takes it.
use koti.Base.{◌+◌, Bool, ◌&&◌, ◌||◌, ◌==◌, ltb, ◌++◌, take, drop, if◌then◌else◌}
use koti.Base.Text.{Text, lit, text_eq}
use koti.Base.Strings.{starts_with, contains, replace_first}
use koti.Esp.Pages.{
  garble, flaky_link, request_damage, continuation, program_damage, program_damage_hard,
  is_scenario,
}
use koti.Esp.Mock.{Mock}

abbrev pub unspoilt : Mock → Bool
unspoilt m = m.garbles == 0

-- One fault: where its condition holds it is counted, and the line is changed.
abbrev pub spoil : Bool → Text → Mock × Text → Mock × Text
spoil hit changed (m, line) =
    if hit then (record m { garbles = m.garbles + 1 }, changed) else (m, line)

-- `garble`.
unfoldable pub hits_garble : Mock → Text → Bool
unfolding is_scenario text_eq
hits_garble m line =
    is_scenario m.scenario garble
    && ltb m.garbles 2
    && (text_eq (take 2 line) (lit "a=") || text_eq (take 2 line) (lit "h="))

unfoldable pub garble_line : Mock × Text → Mock × Text
unfolding hits_garble
garble_line (m, line) = spoil (hits_garble m line) (take 5 line ++ drop 6 line) (m, line)

-- `flakylink`.
unfoldable pub hits_flaky : Mock → Text → Bool
unfolding is_scenario contains
hits_flaky m line =
    is_scenario m.scenario flaky_link && contains (lit "KOTI'+'-UP") line && unspoilt m

unfoldable pub flaky_line : Mock × Text → Mock × Text
unfolding hits_flaky replace_first
flaky_line (m, line) =
    spoil (hits_flaky m line) (replace_first (lit "isconnected") (lit "isconnectd") line) (m, line)

-- `reqdamage`.
unfoldable pub hits_request : Mock → Text → Bool
unfolding is_scenario contains
hits_request m line =
    is_scenario m.scenario request_damage && contains (lit "Connection") line && unspoilt m

unfoldable pub request_line : Mock × Text → Mock × Text
unfolding hits_request replace_first
request_line (m, line) =
    spoil (hits_request m line) (replace_first (lit "Connection") (lit "Connetion") line) (m, line)

-- `continuation`: this fault keeps the line from being executed.
unfoldable pub hits_continuation : Mock → Text → Bool
unfolding is_scenario contains
hits_continuation m line =
    is_scenario m.scenario continuation && contains (lit "Connection") line && unspoilt m

-- `c1damage` and `c1damage-hard`.
unfoldable pub hits_program : Mock → Text → Bool
unfolding is_scenario starts_with contains
hits_program m line =
    (is_scenario m.scenario program_damage || is_scenario m.scenario program_damage_hard)
    && starts_with (lit "c1+=") line
    && contains (lit "-BEGIN") line
    && (is_scenario m.scenario program_damage_hard || unspoilt m)

unfoldable pub program_line : Mock × Text → Mock × Text
unfolding hits_program replace_first
program_line (m, line) =
    spoil (hits_program m line) (replace_first (lit "c1+=") (lit "c1=") line) (m, line)

-- The faults that stand before `continuation` in the loop.
unfoldable pub damage : Mock → Text → Mock × Text
unfolding garble_line flaky_line request_line
damage m line = request_line (flaky_line (garble_line (m, line)))
