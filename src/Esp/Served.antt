-- ===== src/Esp/Served.antt =====
-- Every call of a program, and so every program, keeps the connected sockets registered.
use koti.Base.{ℕ, refl, inl, inr, Option, List, get_elem?, if_both, Option-cases}
use koti.Base.Text.{Text}
use koti.Esp.Pages.{refuse, no_join, is_scenario}
use koti.Esp.Mock.{Mock, Answer, set_config, emit, getaddrinfo}
use koti.Esp.Socket.{settimeout, connect, send, recv, close, open_socket, at_sock_rule}
use koti.Esp.Program.{Call, serve, Program, finish, fail, ask, run_program}
use koti.Esp.Registered.{
  IsRegistered, kill_all-IsRegistered, set-IsRegistered, connect-IsRegistered, open-IsRegistered,
}

abbrev pub Registered : Mock → Type 0
Registered m = IsRegistered m.heap m.socks

abbrev After : Answer × Mock → Type 0
After r = Registered r.1

set_config-Registered : (t : List Text) (m : Mock) → Registered m → Registered (set_config t m).1
unfolding set_config
set_config-Registered t m h = elim (Option-cases (get_elem? t 3)) [
  | inl short ↦ rw (short, set_config) h
  | inr (d, long) ↦ rw (long, set_config) (kill_all-IsRegistered m.socks m.heap h)
]

module _ (i : ℕ) (m : Mock) (h : Registered m) where
  settimeout-Registered : (t : Option ℕ) → Registered (settimeout i t m).1
  unfolding settimeout
  settimeout-Registered t =
      at_sock_rule After (get_elem? m.heap i) m _ h
        (λ s found. set-IsRegistered m.heap m.socks i s _ found (inl refl) h)

  connect-Registered : Registered (connect i m).1
  unfolding connect
  connect-Registered = at_sock_rule After (get_elem? m.heap i) m _ h (λ s found.
      if_both After s.dead _ _ h (
        if_both After (is_scenario m.scenario refuse) _ _ h
          (connect-IsRegistered m.heap m.socks i _ h)))

  send-Registered : (payload : List ℕ) → Registered (send i payload m).1
  unfolding send
  send-Registered payload = at_sock_rule After (get_elem? m.heap i) m _ h (λ s found.
      if_both After s.dead _ _ h (
        if_both After s.connected _ _ (set-IsRegistered m.heap m.socks i s _ found (inl refl) h) h))

  recv-Registered : (n : ℕ) → Registered (recv i n m).1
  unfolding recv
  recv-Registered n = at_sock_rule After (get_elem? m.heap i) m _ h (λ s found.
      if_both After s.dead _ _ h (
        if_both After s.connected _ _ (set-IsRegistered m.heap m.socks i s _ found (inl refl) h) h))

  close-Registered : Registered (close i m).1
  unfolding close
  close-Registered =
      at_sock_rule After (get_elem? m.heap i) m _ h
        (λ s found. set-IsRegistered m.heap m.socks i s _ found (inr refl) h)

pub serve-Registered : (c : Call) (m : Mock) → Registered m → Registered (serve c m).1
unfolding serve emit open_socket getaddrinfo
serve-Registered (Call.print args sep end) m h = h
serve-Registered (Call.write s) m h = h
serve-Registered Call.isconnected m h = if_both After (is_scenario m.scenario no_join) _ _ h h
serve-Registered Call.status m h = if_both After (is_scenario m.scenario no_join) _ _ h h
serve-Registered Call.get_config m h = if_both After (is_scenario m.scenario no_join) _ _ h h
serve-Registered (Call.put_config t) m h =
    if_both After (is_scenario m.scenario no_join) _ _ h (set_config-Registered t m h)
serve-Registered (Call.lookup_host host port) m h = h
serve-Registered Call.make_socket m h = open-IsRegistered m.heap m.socks h
serve-Registered (Call.set_timeout i t) m h = settimeout-Registered i m h t
serve-Registered (Call.dial i) m h = connect-Registered i m h
serve-Registered (Call.transmit i payload) m h = send-Registered i m h payload
serve-Registered (Call.receive i n) m h = recv-Registered i m h n
serve-Registered (Call.shut i) m h = close-Registered i m h

pub run_program-Registered :
    {S : Type 0} (p : Program S) (m : Mock) → Registered m → Registered (run_program p m).mock
unfolding run_program
run_program-Registered (finish s) m h = h
run_program-Registered (fail s e) m h = h
run_program-Registered (ask c next) m h =
    run_program-Registered (next (serve c m).0) (serve c m).1 (serve-Registered c m h)
