-- ===== src/Esp/Split.antt =====
-- Between two lines the DHCP client of sw/linux/fake_esp.py takes back the resolver and resets what is
-- connected: what koti-net does in one line cannot be split over two.
use koti.Base.{
  ℕ, ◌≡◌, sym, ◌∙◌, subst, inl, inr, Option, none, some, Bool, true, false, ◌||◌, List, [], ◌∷◌,
  ◌++◌, get_elem?-set_at, take, drop, Bool-cases, Option-cases, if_both,
}
use mathlib.Core.Option.{some-injective}
use koti.Base.Text.{Text, lit}
use koti.Base.Strings.{replace_first, starts_with}
use koti.Esp.Pages.{Scenario, no_dhcp, good_dns, is_scenario, broken_dns}
use koti.Esp.Mock.{Mock, Exc, new_mock, emit, dhcp_tick, dns}
use koti.Esp.Program.{Program, run_program}
use koti.Esp.Damage.{
  damage, garble_line, flaky_line, request_line, program_line, spoil, hits_garble, hits_flaky,
  hits_request, hits_program, hits_continuation,
}
use koti.Esp.Loop.{
  World, LoopPhase, Moment, idle, busy, stopped, crashed, start, begin_line, receive_line,
  interrupt_idle, interrupt_busy, finish_line, emit_error, run,
}
use koti.Esp.Kept.{IsKept, run-IsKept}
use koti.Esp.Registered.{AllDead, kill_all-IsRegistered, kill_all-AllDead}
use koti.Esp.Served.{Registered, run_program-Registered}

-- The scenario has a DHCP client that renews the lease.
abbrev pub Leases : Mock → Type 0
Leases m = (is_scenario m.scenario no_dhcp || is_scenario m.scenario good_dns) ≡ false

-- No socket that is connected is alive, and the resolver is the broken one.
pub record IsCut (m : Mock) : Type 0 where
  pub dead : AllDead m.heap
  pub broken : dns m ≡ some broken_dns

-- What the command boundary leaves, if it returns.
record Ticked (m m' : Mock) : Type 0 where
  registered : Registered m'
  cut : Leases m' → IsCut m'

dhcp_tick-Ticked : (m m' : Mock) → Registered m → dhcp_tick m ≡ some m' → Ticked m m'
unfolding dhcp_tick
dhcp_tick-Ticked m m' h e =
    elim (Bool-cases (is_scenario m.scenario no_dhcp || is_scenario m.scenario good_dns)) [
      | inl off ↦
          let same : m ≡ m' = cc (rw (off, dhcp_tick) at e) in
          subst (Ticked m) same (record { registered = h; cut = λ on. absurd (cc (sym off ∙ on)) })
      | inr on ↦ elim (Option-cases (dns m)) [
        | inl short ↦ absurd (cc (rw (on, short, dhcp_tick) at e))
        | inr (d, found) ↦
            subst (Ticked m) (some-injective _ _ (rw (on, found, dhcp_tick) at e)) (record {
              registered = kill_all-IsRegistered m.socks m.heap h;
              cut = λ _. record {
                dead = kill_all-AllDead m.socks m.heap h;
                broken = get_elem?-set_at m.cfg 3 broken_dns found;
              };
            })
      ]
    ]

spoil-Registered :
    (hit : Bool) (changed : Text) (m : Mock) (line : Text)
    → Registered m
    → Registered (spoil hit changed (m, line)).0
spoil-Registered true changed m line h = h
spoil-Registered false changed m line h = h

garble_line-Registered : (p : Mock × Text) → Registered p.0 → Registered (garble_line p).0
unfolding garble_line
garble_line-Registered (m, line) h =
    spoil-Registered (hits_garble m line) (take 5 line ++ drop 6 line) m line h

flaky_line-Registered : (p : Mock × Text) → Registered p.0 → Registered (flaky_line p).0
unfolding flaky_line
flaky_line-Registered (m, line) h =
    spoil-Registered (hits_flaky m line) (replace_first (lit "isconnected") (lit "isconnectd") line)
      m line h

request_line-Registered : (p : Mock × Text) → Registered p.0 → Registered (request_line p).0
unfolding request_line
request_line-Registered (m, line) h =
    spoil-Registered (hits_request m line) (replace_first (lit "Connection") (lit "Connetion") line)
      m line h

program_line-Registered : (p : Mock × Text) → Registered p.0 → Registered (program_line p).0
unfolding program_line
program_line-Registered (m, line) h =
    spoil-Registered (hits_program m line) (replace_first (lit "c1+=") (lit "c1=") line) m line h

damage-Registered : (m : Mock) (line : Text) → Registered m → Registered (damage m line).0
unfolding damage
damage-Registered m line h =
    request_line-Registered (flaky_line (garble_line (m, line)))
      (flaky_line-Registered (garble_line (m, line)) (garble_line-Registered (m, line) h))

emit_error-Registered : (e : Option Exc) (m : Mock) → Registered m → Registered (emit_error e m)
unfolding emit_error emit
emit_error-Registered none m h = h
emit_error-Registered (some e) m h = h

abbrev pub CutIfBusy : LoopPhase → Mock → Type 0
CutIfBusy (busy end line) m = Leases m → IsCut m
CutIfBusy idle m = Unit
CutIfBusy stopped m = Unit
CutIfBusy crashed m = Unit

CutIfBusy-overruns :
    (q : LoopPhase) (m : Mock) (overruns : List Text)
    → CutIfBusy q m
    → CutIfBusy q (record m { overruns = overruns })
CutIfBusy-overruns (busy end line) m overruns h =
    λ on. let cut = h on in record { dead = cut.dead; broken = cut.broken }
CutIfBusy-overruns idle m overruns h = tt
CutIfBusy-overruns stopped m overruns h = tt
CutIfBusy-overruns crashed m overruns h = tt

module _ {S : Type 0} where
  -- What holds between two steps of the loop.
  pub record IsSplit (w : World S) : Type 0 where
    pub registered : Registered w.mock
    pub cut : CutIfBusy w.phase w.mock

  begin_line-IsSplit :
      (now : ℕ) (line : Text) (m : Mock) (w : World S)
      → Registered m
      → IsSplit (begin_line now line m w)
  unfolding begin_line
  begin_line-IsSplit now line m w h =
      let m' = record m { lines = m.lines ++ line ∷ []; out = [] } in
      elim (Option-cases (dhcp_tick m')) [
        | inl short ↦ rw (short, begin_line) (record { registered = h; cut = tt })
        | inr (ticked, found) ↦
            let t = dhcp_tick-Ticked m' ticked h found in
            rw (found, begin_line) (record { registered = t.registered; cut = t.cut })
      ]

  receive_line-IsSplit :
      (now : ℕ) (line : Text) (w : World S)
      → w.phase ≡ idle
      → Registered w.mock
      → IsSplit (receive_line now line w)
  unfolding receive_line
  receive_line-IsSplit now line w p h =
      let d = damage-Registered w.mock line h in
      let waiting = λ (m : Mock). subst (λ (q : LoopPhase). CutIfBusy q m) (sym p) tt in
      if_both IsSplit w.mock.continuing _ _ (record { registered = h; cut = waiting _ })
        (if_both IsSplit (hits_continuation (damage w.mock line).0 (damage w.mock line).1) _ _
          (record { registered = d; cut = waiting _ })
          (let p = program_line (damage w.mock line) in
            begin_line-IsSplit now p.1 p.0 w (program_line-Registered (damage w.mock line) d)))

  finish_line-IsSplit :
      (exec : Text → S → Program S) (line : Text) (w : World S)
      → Registered w.mock
      → IsSplit (finish_line exec line w)
  unfolding finish_line
  finish_line-IsSplit exec line w h = elim (Bool-cases (starts_with (lit "import ") line)) [
    | inl fakes ↦
        rw (fakes, finish_line)
          (record { registered = emit_error-Registered none w.mock h; cut = tt })
    | inr code ↦
        let r = run_program (exec line w.kept_state) w.mock in
        rw (code, finish_line)
          (record {
            registered =
                emit_error-Registered r.error r.mock
                  (run_program-Registered (exec line w.kept_state) w.mock h);
            cut = tt;
          })
  ]

  IsSplit-IsKept : (exec : Text → S → Program S) → IsKept exec IsSplit
  unfolding interrupt_idle interrupt_busy
  IsSplit-IsKept exec = record {
    file = λ dev w h. record { registered = h.registered; cut = h.cut };
    receive = λ now line w p h. receive_line-IsSplit now line w p h.registered;
    prompted = λ rest w p h. record {
      registered = h.registered;
      cut = subst (λ (q : LoopPhase). CutIfBusy q (interrupt_idle rest w).mock) (sym p) tt;
    };
    broken_off = λ rest w h. record { registered = h.registered; cut = tt };
    deaf = λ lost w h. record {
      registered = h.registered;
      cut = CutIfBusy-overruns w.phase w.mock (w.mock.overruns ++ lost ∷ []) h.cut;
    };
    execute = λ line w h. finish_line-IsSplit exec line w h.registered;
    leave = λ w h. record { registered = h.registered; cut = tt };
  }

  start-IsSplit : (scenario : Scenario) (s : S) → IsSplit (start scenario s)
  unfolding start new_mock
  start-IsSplit scenario s = record { registered = λ i t at c. absurd (cc); cut = tt }

  pub run-IsSplit :
      (exec : Text → S → Program S) (deadline : ℕ) (ts : List Moment) (scenario : Scenario) (s : S)
      → IsSplit (run exec deadline ts (start scenario s))
  run-IsSplit exec deadline ts scenario s =
      run-IsKept exec IsSplit (IsSplit-IsKept exec) deadline ts (start scenario s)
        (start-IsSplit scenario s)
