-- ===== src/Esp/Mock.antt =====
-- The classes `Mock` and `Sock` of sw/linux/fake_esp.py. The sockets are objects that the far end and
-- its program share, so they stand in a store and are named by their place in it.
use koti.Base.{
  ℕ, ◌+◌, Option, none, some, Bool, true, false, ◌||◌, ◌==◌, leb, List, [], ◌∷◌, ◌++◌, get_elem?,
  set, if◌then◌else◌,
}
use koti.Base.Int.{ℤ, pos, negsuc}
use koti.Base.Text.{Text, lit, text_eq, dec_ℤ}
use koti.Base.Strings.{int, until}
use koti.Esp.Pages.{Scenario, good_dns, no_dhcp, is_scenario, broken_dns, gateway, known, resolve}

-- A piece of output: text, or the object BOUNDARY.
pub data Piece : Type 0 where
  text : Text → Piece
  boundary : Piece

pub record Sock : Type 0 where
  pub timeout : Option ℕ
  pub connected : Bool
  pub dead : Bool
  pub buf : List ℕ
  pub pos : ℕ

-- `heap` is the store; `socks` names the sockets that were connected, once for each time.
pub record Mock : Type 0 where
  pub scenario : Scenario
  pub cfg : List Text
  pub heap : List Sock
  pub socks : List ℕ
  pub out : List Piece
  pub overruns : List Text
  pub lines : List Text
  pub repairs : ℕ
  pub reverts : ℕ
  pub connects : ℕ
  pub garbles : ℕ
  pub interrupts : ℕ
  pub continuing : Bool

-- `Mock(scenario)`.
unfoldable pub new_mock : Scenario → Mock
unfolding is_scenario
new_mock scenario = record {
  scenario = scenario;
  cfg =
      lit "172.20.10.2"
      ∷ lit "255.255.255.240"
      ∷ gateway
      ∷ (if is_scenario scenario good_dns then gateway else broken_dns)
      ∷ [];
  heap = [];
  socks = [];
  out = [];
  overruns = [];
  lines = [];
  repairs = 0;
  reverts = 0;
  connects = 0;
  garbles = 0;
  interrupts = 0;
  continuing = false;
}

-- `Sock(mock)`.
abbrev pub new_sock : Sock
new_sock = record { timeout = none; connected = false; dead = false; buf = []; pos = 0 }

-- An exception by the name of its class and its text.
pub record Exc : Type 0 where
  pub class : Text
  pub message : Text

-- `OSError(n)`, and `OSError(104, "ECONNRESET")`, which Python makes a ConnectionResetError.
unfoldable pub os_error : ℤ → Exc
os_error n = record { class = lit "OSError"; message = dec_ℤ n }

abbrev pub reset_error : Exc
reset_error = record { class = lit "ConnectionResetError"; message = lit "[Errno 104] ECONNRESET" }

abbrev pub index_error : Exc
index_error = record { class = lit "IndexError"; message = lit "list index out of range" }

-- The text of the number is quoted as it is.
unfoldable pub value_error : Text → Exc
value_error s = record {
  class = lit "ValueError";
  message = lit "invalid literal for int() with base 10: '" ++ s ++ lit "'";
}

unfoldable pub name_error : Text → Exc
name_error name = record {
  class = lit "NameError";
  message = lit "name '" ++ name ++ lit "' is not defined";
}

-- What a call returns to the program.
pub data Answer : Type 0 where
  nothing : Answer
  truth : Bool → Answer
  number : ℕ → Answer
  config : List Text → Answer
  address : Text → ℕ → Answer
  socket_ref : ℕ → Answer
  bytes : List ℕ → Answer
  raises : Exc → Answer

-- `sep.join(parts)`.
unfoldable pub join : Text → List Text → Text
join sep [] = []
join sep (s ∷ []) = s
join sep (s ∷ (t ∷ parts)) = s ++ sep ++ join sep (t ∷ parts)

abbrev pub put_out : Piece → Mock → Mock
put_out p m = record m { out = m.out ++ p ∷ [] }

-- `emit`, the `print` of the program, on arguments that are texts.
unfoldable pub emit : List Text → Text → Text → Mock → Mock
unfolding join
emit args sep end m = put_out (text (join sep args ++ end)) m

-- `s.dead = True` for a socket of the store.
unfoldable pub kill : List Sock → ℕ → List Sock
kill heap i = elim (get_elem? heap i) [
  | none ↦ heap
  | some s ↦ set heap i (record s { dead = true })
]

unfoldable pub kill_all : List ℕ → List Sock → List Sock
kill_all [] heap = heap
kill_all (i ∷ socks) heap = kill_all socks (kill heap i)

-- `reconfigured`.
abbrev pub reconfigured : Mock → Mock
reconfigured m = record m { heap = kill_all m.socks m.heap }

-- `self.cfg[3]`.
abbrev pub dns : Mock → Option Text
dns m = get_elem? m.cfg 3

abbrev pub is_broken : Text → Bool
is_broken s = text_eq s broken_dns

-- `ifconfig(t)` with an address; the configuration is taken before its length is looked at.
unfoldable pub set_config : List Text → Mock → Answer × Mock
unfolding kill_all
set_config t m = elim (get_elem? t 3) [
  | none ↦ (raises index_error, record m { cfg = t })
  | some d ↦ (
    nothing,
    reconfigured (record m { cfg = t; repairs = if is_broken d then m.repairs else m.repairs + 1 }),
  )
]

-- `dhcp_tick`; `none` is an IndexError.
unfoldable pub dhcp_tick : Mock → Option Mock
unfolding kill_all is_scenario
dhcp_tick m =
    if is_scenario m.scenario no_dhcp || is_scenario m.scenario good_dns
    then some m
    else elim (dns m) [
      | none ↦ none
      | some d ↦ some (
          reconfigured (record m {
            cfg = set m.cfg 3 broken_dns;
            reverts = if is_broken d then m.reverts else m.reverts + 1;
          }))
    ]

-- `n == 0 or n >= 224`.
unfoldable pub no_resolver : ℤ → Bool
no_resolver (pos n) = n == 0 || leb 224 n
no_resolver (negsuc n) = false

-- `getaddrinfo` without the state, which it leaves alone.
unfoldable pub resolve_with : Option Text → Text → ℕ → Answer
unfolding int until no_resolver resolve
resolve_with none host port = raises index_error
resolve_with (some d) host port = elim (int (until b'.' d)) [
  | none ↦ raises (value_error (until b'.' d))
  | some n ↦ elim (no_resolver n) [
    | true ↦ raises (os_error (negsuc 201))
    | false ↦ elim (resolve host known) [
      | none ↦ raises (os_error (negsuc 201))
      | some a ↦ address a port
    ]
  ]
]

unfoldable pub getaddrinfo : Text → ℕ → Mock → Answer × Mock
unfolding resolve_with
getaddrinfo host port m = (resolve_with (dns m) host port, m)
