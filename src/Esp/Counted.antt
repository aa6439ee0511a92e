-- ===== src/Esp/Counted.antt =====
-- The counters that sw/linux/fake_esp.py reports, in every state that its loop reaches.
use koti.Base.{
  ℕ, ◌+◌, ◌≤◌, ◌≡◌, refl, inl, inr, arith, Option, none, some, true, false, ◌||◌, List, [], ◌∷◌,
  length, length-append, get_elem?, if_both, if◌then◌else◌, Option-cases,
}
use koti.Base.Text.{Text, lit, text_eq}
use koti.Esp.Pages.{
  Scenario, good_dns, refuse, no_join, garble, flaky_link, request_damage, continuation,
  program_damage, program_damage_hard, is_scenario, broken_dns,
}
use koti.Esp.Mock.{Mock, Sock, Answer, dns, is_broken, emit, set_config, getaddrinfo}
use koti.Esp.Socket.{settimeout, connect, send, recv, close, open_socket, at_sock_rule}
use koti.Esp.Program.{Call, serve, Program, finish, fail, ask, run_program}

-- 1 while the resolver is one that the DHCP client would take back.
abbrev pub repaired : Option Text → ℕ
repaired none = 0
repaired (some d) = if is_broken d then 0 else 1

-- What stands in the place of a first repair.
abbrev pub given : Scenario → ℕ
given scenario = if is_scenario scenario good_dns then 1 else 0

-- How many lines a scenario may damage.
abbrev pub limit : Scenario → ℕ
limit scenario =
    if is_scenario scenario garble
    then 2
    else if is_scenario scenario flaky_link
        || is_scenario scenario request_damage
        || is_scenario scenario continuation
        || is_scenario scenario program_damage
    then 1
    else 0

pub record IsCounted (m : Mock) : Type 0 where
  pub reverted : m.reverts + repaired (dns m) ≤ m.repairs + given m.scenario
  pub connected : m.connects ≡ length m.socks
  pub damaged : is_scenario m.scenario program_damage_hard ≡ false → m.garbles ≤ limit m.scenario

pub broken_dns-is_broken : is_broken broken_dns ≡ true
unfolding text_eq lit
broken_dns-is_broken = refl

set_config-IsCounted : (t : List Text) (m : Mock) → IsCounted m → IsCounted (set_config t m).1
unfolding set_config
set_config-IsCounted t m h = elim (Option-cases (get_elem? t 3)) [
  | inl short ↦
      rw (short, set_config)
        (record {
          reverted = rw short (omega (arith, h.reverted));
          connected = h.connected;
          damaged = h.damaged;
        })
  | inr (d, long) ↦
      rw (long, set_config)
        (record {
          reverted = rw long (ground (arith, h.reverted));
          connected = h.connected;
          damaged = h.damaged;
        })
]

abbrev After : Answer × Mock → Type 0
After r = IsCounted r.1

-- Only the list `heap` is written.
heap-IsCounted : (m : Mock) (heap : List Sock) → IsCounted m → IsCounted (record m { heap = heap })
heap-IsCounted m heap h = record {
  reverted = h.reverted;
  connected = h.connected;
  damaged = h.damaged;
}

module _ (i : ℕ) (m : Mock) (h : IsCounted m) where
  settimeout-IsCounted : (t : Option ℕ) → IsCounted (settimeout i t m).1
  unfolding settimeout
  settimeout-IsCounted t =
      at_sock_rule After (get_elem? m.heap i) m _ h (λ s found. heap-IsCounted m _ h)

  connect-IsCounted : IsCounted (connect i m).1
  unfolding connect
  connect-IsCounted = at_sock_rule After (get_elem? m.heap i) m _ h (λ s found.
      if_both After s.dead _ _ h (
        if_both After (is_scenario m.scenario refuse) _ _ h (record {
          reverted = h.reverted;
          connected = omega (arith, h.connected, length-append m.socks (i ∷ []));
          damaged = h.damaged;
        })))

  send-IsCounted : (payload : List ℕ) → IsCounted (send i payload m).1
  unfolding send
  send-IsCounted payload = at_sock_rule After (get_elem? m.heap i) m _ h (λ s found.
      if_both After s.dead _ _ h (if_both After s.connected _ _ (heap-IsCounted m _ h) h))

  recv-IsCounted : (n : ℕ) → IsCounted (recv i n m).1
  unfolding recv
  recv-IsCounted n = at_sock_rule After (get_elem? m.heap i) m _ h (λ s found.
      if_both After s.dead _ _ h (
        if_both After s.connected _ _
          (record { reverted = h.reverted; connected = h.connected; damaged = h.damaged })
          (record { reverted = h.reverted; connected = h.connected; damaged = h.damaged })))

  close-IsCounted : IsCounted (close i m).1
  unfolding close
  close-IsCounted = at_sock_rule After (get_elem? m.heap i) m _ h (λ s found. heap-IsCounted m _ h)

pub serve-IsCounted : (c : Call) (m : Mock) → IsCounted m → IsCounted (serve c m).1
unfolding serve emit open_socket getaddrinfo
serve-IsCounted (Call.print args sep end) m h = record {
  reverted = h.reverted;
  connected = h.connected;
  damaged = h.damaged;
}
serve-IsCounted (Call.write s) m h = record {
  reverted = h.reverted;
  connected = h.connected;
  damaged = h.damaged;
}
serve-IsCounted Call.isconnected m h = if_both After (is_scenario m.scenario no_join) _ _ h h
serve-IsCounted Call.status m h = if_both After (is_scenario m.scenario no_join) _ _ h h
serve-IsCounted Call.get_config m h = if_both After (is_scenario m.scenario no_join) _ _ h h
serve-IsCounted (Call.put_config t) m h =
    if_both After (is_scenario m.scenario no_join) _ _ h (set_config-IsCounted t m h)
serve-IsCounted (Call.lookup_host host port) m h = h
serve-IsCounted Call.make_socket m h = heap-IsCounted m _ h
serve-IsCounted (Call.set_timeout i t) m h = settimeout-IsCounted i m h t
serve-IsCounted (Call.dial i) m h = connect-IsCounted i m h
serve-IsCounted (Call.transmit i payload) m h = send-IsCounted i m h payload
serve-IsCounted (Call.receive i n) m h = recv-IsCounted i m h n
serve-IsCounted (Call.shut i) m h = close-IsCounted i m h

pub run_program-IsCounted :
    {S : Type 0} (p : Program S) (m : Mock) → IsCounted m → IsCounted (run_program p m).mock
unfolding run_program
run_program-IsCounted (finish s) m h = h
run_program-IsCounted (fail s e) m h = h
run_program-IsCounted (ask c next) m h =
    run_program-IsCounted (next (serve c m).0) (serve c m).1 (serve-IsCounted c m h)
