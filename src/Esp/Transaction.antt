-- ===== src/Esp/Transaction.antt =====
-- Why koti-net dials, asks and reads in one line: what a line of it finds when it is executed.
use koti.Base.{
  ℕ, ◌≡◌, refl, sym, ap, ◌∙◌, subst, inl, inr, Option, none, some, List, [], get_elem?,
  if◌then◌else◌, Bool-cases, Option-cases,
}
use koti.Base.Int.{ℤ, pos, negsuc}
use koti.Base.Text.{Text, lit}
use koti.Esp.Pages.{Scenario, broken_dns}
use koti.Esp.Mock.{
  Mock, Sock, Exc, raises, os_error, reset_error, name_error, getaddrinfo, resolve_with,
}
use koti.Esp.Socket.{send, recv}
use koti.Esp.Program.{Program}
use koti.Esp.Loop.{Moment, LoopPhase, busy, start, run}
use koti.Esp.Registered.{AllDead}
use koti.Esp.Split.{Leases, IsCut, CutIfBusy, run-IsSplit}

-- What a call fails with on a socket that was killed, or that is not connected; the second is OSError
-- with the call's own number. ConnectionResetError is a kind of OSError. A number that names no socket
-- is a name that the program has not set.
abbrev pub socket_error : Option Sock → ℤ → Exc
socket_error none errno = name_error []
socket_error (some s) errno = if s.dead then reset_error else os_error errno

send-socket_error :
    (i : ℕ) (payload : List ℕ) (m : Mock)
    → AllDead m.heap
    → (send i payload m).0 ≡ raises (socket_error (get_elem? m.heap i) (pos 128))
unfolding send
send-socket_error i payload m h = elim (Option-cases (get_elem? m.heap i)) [
  | inl free ↦ rw (free, send) refl
  | inr (s, found) ↦ elim (Bool-cases s.dead) [
    | inl dead ↦ rw (found, dead, send) refl
    | inr alive ↦ elim (Bool-cases s.connected) [
      | inl on ↦ absurd (cc (sym alive ∙ h i s found on))
      | inr off ↦ rw (found, alive, off, send) refl
    ]
  ]
]

recv-socket_error :
    (i n : ℕ) (m : Mock)
    → AllDead m.heap
    → (recv i n m).0 ≡ raises (socket_error (get_elem? m.heap i) (pos 110))
unfolding recv
recv-socket_error i n m h = elim (Option-cases (get_elem? m.heap i)) [
  | inl free ↦ rw (free, recv) refl
  | inr (s, found) ↦ elim (Bool-cases s.dead) [
    | inl dead ↦ rw (found, dead, recv) refl
    | inr alive ↦ elim (Bool-cases s.connected) [
      | inl on ↦ absurd (cc (sym alive ∙ h i s found on))
      | inr off ↦ rw (found, alive, off, recv) refl
    ]
  ]
]

broken_dns-unresolved :
    (host : Text) (port : ℕ)
    → resolve_with (some broken_dns) host port ≡ raises (os_error (negsuc 201))
unfolding resolve_with lit
broken_dns-unresolved host port = refl

-- Whatever was sent and executed before, and whenever: where a line waits to be executed in a scenario
-- with a DHCP client, each `send` and each `recv` on a socket that an earlier line made raises
-- ConnectionResetError if the socket was killed, and otherwise OSError(128) for `send` and OSError(110)
-- for `recv`; and `getaddrinfo` raises OSError(-202) for every name.
pub run-raises :
    {S : Type 0} (exec : Text → S → Program S) (deadline : ℕ) (ts : List Moment)
    (scenario : Scenario) (s : S) {end : ℕ} {line : Text}
    → let m = (run exec deadline ts (start scenario s)).mock in
      (run exec deadline ts (start scenario s)).phase ≡ busy end line
      → Leases m
      → (i n port : ℕ) (payload : List ℕ) (host : Text)
      → ((send i payload m).0 ≡ raises (socket_error (get_elem? m.heap i) (pos 128)))
        × ((recv i n m).0 ≡ raises (socket_error (get_elem? m.heap i) (pos 110)))
        × ((getaddrinfo host port m).0 ≡ raises (os_error (negsuc 201)))
unfolding getaddrinfo
run-raises exec deadline ts scenario s {end} {line} p on i n port payload host =
    let w = run exec deadline ts (start scenario s) in
    let cut : IsCut w.mock =
      subst (λ (q : LoopPhase). CutIfBusy q w.mock) p (run-IsSplit exec deadline ts scenario s).cut
        on in
    (
      send-socket_error i payload w.mock cut.dead,
      recv-socket_error i n w.mock cut.dead,
      ap (λ (d : Option Text). resolve_with d host port) cut.broken
          ∙ broken_dns-unresolved host port,
    )
