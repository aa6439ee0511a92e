-- ===== src/Esp/Calls.antt =====
-- The answers of the far end of sw/linux/fake_esp.py to a program that uses a live socket.
use koti.Base.{
  ℕ, ◌+◌, ◌≡◌, refl, ap, Option, some, true, false, List, [], ◌∷◌, ◌++◌, length, get_elem?, set,
}
use koti.Esp.Pages.{refuse, is_scenario}
use koti.Esp.Mock.{Mock, Sock, Answer, nothing, number, bytes, boundary, put_out}
use koti.Esp.Socket.{settimeout, connect, send, recv, close, put_sock, next_bytes, connect_body}
use koti.Esp.Program.{Call, serve, Program, ask, run_program}

pub ask_lem :
    {S : Type 0} (c : Call) (next : Answer → Program S) (m m' : Mock) (a : Answer)
    → serve c m ≡ (a, m')
    → run_program (ask c next) m ≡ run_program (next a) m'
unfolding run_program
ask_lem c next m m' a e = ap (λ (r : Answer × Mock). run_program (next r.0) r.1) e

module _ (i : ℕ) (m : Mock) (k : Sock) (found : get_elem? m.heap i ≡ some k) where
  pub settimeout_lem :
      (t : Option ℕ) → settimeout i t m ≡ (nothing, put_sock i (record k { timeout = t }) m)
  unfolding settimeout
  settimeout_lem t = rw (found, settimeout) refl

  pub close_lem : close i m ≡ (nothing, put_sock i (record k { connected = false }) m)
  unfolding close
  close_lem = rw (found, close) refl

  module _ (alive : k.dead ≡ false) where
    pub connect_lem :
        is_scenario m.scenario refuse ≡ false
        → connect i m ≡ (
          nothing,
          record m {
            heap = set m.heap i (record k { connected = true });
            connects = m.connects + 1;
            socks = m.socks ++ i ∷ [];
          },
        )
    unfolding connect
    connect_lem open_port = simp (found, connect, alive, open_port)

    pub send_lem :
        (payload : List ℕ)
        → k.connected ≡ true
        → send i payload m
          ≡ (number (length payload), put_sock i (record k { buf = connect_body m.scenario }) m)
    unfolding send
    send_lem payload on = simp (found, send, alive, on)

    pub recv_lem :
        (n : ℕ)
        → k.connected ≡ true
        → recv i n m ≡ (
          bytes (next_bytes n k),
          put_sock i (record k { pos = k.pos + length (next_bytes n k) }) (put_out boundary m),
        )
    unfolding recv
    recv_lem n on = simp (found, recv, alive, on)
