-- ===== src/Esp/Program.antt =====
-- The line that the far end executes. Python's `exec` is not code of the repository: to the far end a
-- line is what it asks of the objects in its namespace, one call after the other, each call chosen
-- from the answers so far, until it ends or an exception leaves it.
use koti.Base.{ℕ, Option, none, some, true, false, not, List, if◌then◌else◌}
use koti.Base.Text.{Text, lit}
use koti.Esp.Pages.{no_join, not_associated, is_scenario}
use koti.Esp.Mock.{
  Mock, Answer, nothing, truth, number, config, raises, Exc, text, put_out, emit, set_config,
  getaddrinfo, name_error,
}
use koti.Esp.Socket.{open_socket, settimeout, connect, send, recv, close}

-- `print`, `sys.stdout.write`, the methods of `w`, those of the module `socket`, those of a socket.
pub data Call : Type 0 where
  print : List Text → Text → Text → Call
  write : Text → Call
  isconnected : Call
  status : Call
  get_config : Call
  put_config : List Text → Call
  lookup_host : Text → ℕ → Call
  make_socket : Call
  set_timeout : ℕ → Option ℕ → Call
  dial : ℕ → Call
  transmit : ℕ → List ℕ → Call
  receive : ℕ → ℕ → Call
  shut : ℕ → Call

-- The name `w` is there but for the scenario `nojoin`.
abbrev with_w : Mock → Answer × Mock → Answer × Mock
with_w m r = if is_scenario m.scenario no_join then (raises (name_error (lit "w")), m) else r

-- The answer of the far end's objects.
unfoldable pub serve : Call → Mock → Answer × Mock
unfolding emit set_config getaddrinfo open_socket settimeout connect send recv close is_scenario
serve (print args sep end) m = (nothing, emit args sep end m)
serve (write s) m = (nothing, put_out (text s) m)
serve isconnected m = with_w m (truth (not (is_scenario m.scenario not_associated)), m)
serve status m =
    with_w m
      (number (elim (is_scenario m.scenario not_associated) [ true ↦ 1001 | false ↦ 1010 ]), m)
serve get_config m = with_w m (config m.cfg, m)
serve (put_config t) m = with_w m (set_config t m)
serve (lookup_host host port) m = getaddrinfo host port m
serve make_socket m = open_socket m
serve (set_timeout i t) m = settimeout i t m
serve (dial i) m = connect i m
serve (transmit i payload) m = send i payload m
serve (receive i n) m = recv i n m
serve (shut i) m = close i m

-- What a line does; `S` is what Python keeps between the lines.
pub data Program (S : Type 0) : Type 0 where
  finish : S → Program S
  fail : S → Exc → Program S
  ask : Call → (Answer → Program S) → Program S

pub record Ending (S : Type 0) : Type 0 where
  pub kept : S
  pub error : Option Exc
  pub mock : Mock

unfoldable pub run_program : {S : Type 0} → Program S → Mock → Ending S
unfolding serve
run_program (finish s) m = record { kept = s; error = none; mock = m }
run_program (fail s e) m = record { kept = s; error = some e; mock = m }
run_program (ask c next) m = let (answer, m') = serve c m in run_program (next answer) m'
