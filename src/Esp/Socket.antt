-- ===== src/Esp/Socket.antt =====
-- The methods of `Sock` of sw/linux/fake_esp.py.
use koti.Base.{
  ℕ, ◌+◌, ◌≡◌, refl, Option, none, some, true, false, ◌==◌, List, [], ◌∷◌, ◌++◌, length, get_elem?,
  set, take, drop, if◌then◌else◌,
}
use koti.Base.Int.{pos}
use koti.Base.Strings.{rstrip}
use koti.Esp.Pages.{Scenario, refuse, empty, no_newline, is_scenario, headers, response}
use koti.Esp.Mock.{
  Mock, Sock, new_sock, Answer, nothing, number, socket_ref, bytes, raises, boundary, put_out,
  os_error, reset_error, name_error,
}

abbrev pub put_sock : ℕ → Sock → Mock → Mock
put_sock i s m = record m { heap = set m.heap i s }

-- A method of a socket that is there; Python has no reference to any other.
abbrev pub at_sock : Option Sock → Mock → (Sock → Answer × Mock) → Answer × Mock
at_sock none m f = (raises (name_error []), m)
at_sock (some s) m f = f s

abbrev pub on_sock : ℕ → Mock → (Sock → Answer × Mock) → Answer × Mock
on_sock i m f = at_sock (get_elem? m.heap i) m f

-- `socket()`.
unfoldable pub open_socket : Mock → Answer × Mock
open_socket m = (socket_ref (length m.heap), record m { heap = m.heap ++ new_sock ∷ [] })

unfoldable pub settimeout : ℕ → Option ℕ → Mock → Answer × Mock
settimeout i t m = on_sock i m (λ s. (nothing, put_sock i (record s { timeout = t }) m))

unfoldable pub connect : ℕ → Mock → Answer × Mock
unfolding is_scenario
connect i m = on_sock i m (λ s.
    if s.dead
    then (raises (os_error (pos 104)), m)
    else if is_scenario m.scenario refuse
    then (raises (os_error (pos 111)), m)
    else (
      nothing,
      record m {
        heap = set m.heap i (record s { connected = true });
        connects = m.connects + 1;
        socks = m.socks ++ i ∷ [];
      },
    ))

-- `connect_body`.
unfoldable pub connect_body : Scenario → List ℕ
unfolding is_scenario rstrip
connect_body scenario =
    if is_scenario scenario empty
    then headers
    else if is_scenario scenario no_newline
    then rstrip (λ c. c == b'\n') response
    else response

unfoldable pub send : ℕ → List ℕ → Mock → Answer × Mock
send i payload m = on_sock i m (λ s.
    if s.dead
    then (raises reset_error, m)
    else if s.connected
    then (number (length payload), put_sock i (record s { buf = connect_body m.scenario }) m)
    else (raises (os_error (pos 128)), m))

-- `self.buf[self.pos:self.pos + n]`.
abbrev pub next_bytes : ℕ → Sock → List ℕ
next_bytes n s = take n (drop s.pos s.buf)

-- A socket that is not connected blocks until its timeout, and raises then.
unfoldable pub recv : ℕ → ℕ → Mock → Answer × Mock
recv i n m = on_sock i m (λ s.
    if s.dead
    then (raises reset_error, m)
    else if s.connected
    then (
      bytes (next_bytes n s),
      put_sock i (record s { pos = s.pos + length (next_bytes n s) }) (put_out boundary m),
    )
    else (raises (os_error (pos 110)), put_out boundary m))

unfoldable pub close : ℕ → Mock → Answer × Mock
close i m = on_sock i m (λ s. (nothing, put_sock i (record s { connected = false }) m))

-- What holds of the state of a method's result, whether the socket is there or not.
pub at_sock_rule :
    (P : Answer × Mock → Type 0) (o : Option Sock) (m : Mock) (f : Sock → Answer × Mock)
    → P (raises (name_error []), m)
    → ((s : Sock) → o ≡ some s → P (f s))
    → P (at_sock o m f)
at_sock_rule P none m f h each = h
at_sock_rule P (some s) m f h each = each s refl
