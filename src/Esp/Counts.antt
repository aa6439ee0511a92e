-- ===== src/Esp/Counts.antt =====
-- The loop of sw/linux/fake_esp.py keeps its counters consistent.
use koti.Base.{
  ℕ, suc, ◌+◌, ◌≤◌, ◌≡◌, refl, inl, inr, arith, Option, none, some, Bool, true, false, ◌||◌, List,
  [], ◌∷◌, ◌++◌, set, get_elem?, get_elem?-set_at, if_both, if_each, if◌then◌else◌, Bool-cases,
  Option-cases, take, drop, subst,
}
use mathlib.Core.Option.{some-injective}
use koti.Base.Text.{Text, lit}
use koti.Base.Strings.{starts_with, replace_first}
use koti.Esp.Pages.{
  Scenario, good_dns, no_dhcp, program_damage_hard, is_scenario, broken_dns, gateway,
}
use koti.Esp.Mock.{Mock, Exc, dns, is_broken, emit, dhcp_tick, new_mock}
use koti.Esp.Program.{Program, run_program}
use koti.Esp.Damage.{
  damage, garble_line, flaky_line, request_line, program_line, spoil, hits_garble, hits_flaky,
  hits_request, hits_continuation, hits_program,
}
use koti.Esp.Loop.{
  World, Moment, start, begin_line, receive_line, interrupt_idle, interrupt_busy, finish_line,
  emit_error, run,
}
use koti.Esp.Kept.{IsKept, run-IsKept}
use koti.Esp.Counted.{IsCounted, limit, broken_dns-is_broken, run_program-IsCounted}

dhcp_tick-IsCounted : (m m' : Mock) → IsCounted m → dhcp_tick m ≡ some m' → IsCounted m'
unfolding dhcp_tick
dhcp_tick-IsCounted m m' h e =
    elim (Bool-cases (is_scenario m.scenario no_dhcp || is_scenario m.scenario good_dns)) [
      | inl off ↦ let same : m ≡ m' = cc (rw (off, dhcp_tick) at e) in subst IsCounted same h
      | inr on ↦ elim (Option-cases (dns m)) [
        | inl short ↦ absurd (cc (rw (on, short, dhcp_tick) at e))
        | inr (d, found) ↦
            let now : get_elem? (set m.cfg 3 broken_dns) 3 ≡ some broken_dns =
              get_elem?-set_at m.cfg 3 broken_dns found in
            subst IsCounted (some-injective _ _ (rw (on, found, dhcp_tick) at e)) (record {
              reverted =
                  rw (now, broken_dns-is_broken)
                    (let before = rw found at h.reverted in ground (arith, before));
              connected = h.connected;
              damaged = h.damaged;
            })
      ]
    ]

-- A fault that is below its limit may be counted.
spoil-IsCounted :
    (hit : Bool) (changed : Text) (m : Mock) (line : Text)
    → (hit ≡ true
        → is_scenario m.scenario program_damage_hard ≡ false
        → suc m.garbles ≤ limit m.scenario)
    → IsCounted m
    → IsCounted (spoil hit changed (m, line)).0
spoil-IsCounted true changed m line below h = record {
  reverted = h.reverted;
  connected = h.connected;
  damaged = λ soft. omega (arith, below refl soft);
}
spoil-IsCounted false changed m line below h = h

garble_line-IsCounted : (p : Mock × Text) → IsCounted p.0 → IsCounted (garble_line p).0
unfolding garble_line
garble_line-IsCounted (m, line) h =
    spoil-IsCounted (hits_garble m line) (take 5 line ++ drop 6 line) m line
      (unfold hits_garble in λ hit soft. ground arith) h

flaky_line-IsCounted : (p : Mock × Text) → IsCounted p.0 → IsCounted (flaky_line p).0
unfolding flaky_line
flaky_line-IsCounted (m, line) h =
    spoil-IsCounted (hits_flaky m line) (replace_first (lit "isconnected") (lit "isconnectd") line)
      m line (unfold hits_flaky in λ hit soft. ground arith) h

request_line-IsCounted : (p : Mock × Text) → IsCounted p.0 → IsCounted (request_line p).0
unfolding request_line
request_line-IsCounted (m, line) h =
    spoil-IsCounted (hits_request m line) (replace_first (lit "Connection") (lit "Connetion") line)
      m line (unfold hits_request in λ hit soft. ground arith) h

program_line-IsCounted : (p : Mock × Text) → IsCounted p.0 → IsCounted (program_line p).0
unfolding program_line
program_line-IsCounted (m, line) h =
    spoil-IsCounted (hits_program m line) (replace_first (lit "c1+=") (lit "c1=") line) m line
      (unfold hits_program in λ hit soft. ground arith) h

damage-IsCounted : (m : Mock) (line : Text) → IsCounted m → IsCounted (damage m line).0
unfolding damage
damage-IsCounted m line h =
    request_line-IsCounted (flaky_line (garble_line (m, line)))
      (flaky_line-IsCounted (garble_line (m, line)) (garble_line-IsCounted (m, line) h))

-- A change of the fields that are no counters.
plain-IsCounted :
    (m m' : Mock)
    → m'.scenario ≡ m.scenario
    → m'.cfg ≡ m.cfg
    → m'.socks ≡ m.socks
    → m'.repairs ≡ m.repairs
    → m'.reverts ≡ m.reverts
    → m'.connects ≡ m.connects
    → m'.garbles ≡ m.garbles
    → IsCounted m
    → IsCounted m'
plain-IsCounted m m' a b c d e f g h = record {
  reverted = rw (a, b, d, e) h.reverted;
  connected = rw (c, f) h.connected;
  damaged = rw (a, g) h.damaged;
}

emit_error-IsCounted : (e : Option Exc) (m : Mock) → IsCounted m → IsCounted (emit_error e m)
unfolding emit_error emit
emit_error-IsCounted none m h = h
emit_error-IsCounted (some e) m h = plain-IsCounted m _ refl refl refl refl refl refl refl h

continuation-IsCounted :
    (m : Mock) (line : Text) (continuing : Bool)
    → hits_continuation m line ≡ true
    → IsCounted m
    → IsCounted (record m { garbles = m.garbles + 1; continuing = continuing })
unfolding hits_continuation is_scenario
continuation-IsCounted m line continuing hit h = record {
  reverted = h.reverted;
  connected = h.connected;
  damaged = λ soft. ground arith;
}

-- The resolver of a new far end.
new_mock_bound :
    (good : Bool)
    → 0 + (if is_broken (if good then gateway else broken_dns) then 0 else 1)
      ≤ 0 + (if good then 1 else 0)
new_mock_bound true = ground arith
new_mock_bound false = rw broken_dns-is_broken (omega arith)

module _ {S : Type 0} where
  abbrev Counted : World S → Type 0
  Counted w = IsCounted w.mock

  begin_line-IsCounted :
      (now : ℕ) (line : Text) (m : Mock) (w : World S)
      → IsCounted m
      → Counted (begin_line now line m w)
  unfolding begin_line
  begin_line-IsCounted now line m w h =
      let m' = record m { lines = m.lines ++ line ∷ []; out = [] } in
      let h' : IsCounted m' = plain-IsCounted m m' refl refl refl refl refl refl refl h in
      elim (Option-cases (dhcp_tick m')) [
        | inl short ↦ rw (short, begin_line) h'
        | inr (ticked, found) ↦ rw (found, begin_line) (dhcp_tick-IsCounted m' ticked h' found)
      ]

  receive_line-IsCounted :
      (now : ℕ) (line : Text) (w : World S) → Counted w → Counted (receive_line now line w)
  unfolding receive_line
  receive_line-IsCounted now line w h =
      let d = damage w.mock line in
      let hd : IsCounted d.0 = damage-IsCounted w.mock line h in
      if_both Counted w.mock.continuing _ _
        (plain-IsCounted w.mock _ refl refl refl refl refl refl refl h)
        (if_each Counted (hits_continuation d.0 d.1) _ _
          (λ hit. continuation-IsCounted d.0 d.1 true hit hd)
          (λ whole.
            begin_line-IsCounted now (program_line d).1 (program_line d).0 w
              (program_line-IsCounted d hd)))

  finish_line-IsCounted :
      (exec : Text → S → Program S) (line : Text) (w : World S)
      → Counted w
      → Counted (finish_line exec line w)
  unfolding finish_line
  finish_line-IsCounted exec line w h = elim (Bool-cases (starts_with (lit "import ") line)) [
    | inl fakes ↦ rw (fakes, finish_line) (emit_error-IsCounted none w.mock h)
    | inr code ↦
        let r = run_program (exec line w.kept_state) w.mock in
        rw (code, finish_line)
          (emit_error-IsCounted r.error r.mock
            (run_program-IsCounted (exec line w.kept_state) w.mock h))
  ]

  IsCounted-IsKept : (exec : Text → S → Program S) → IsKept exec Counted
  unfolding interrupt_idle interrupt_busy
  IsCounted-IsKept exec = record {
    file = λ dev w h. h;
    receive = λ now line w p h. receive_line-IsCounted now line w h;
    prompted = λ rest w p h. plain-IsCounted w.mock _ refl refl refl refl refl refl refl h;
    broken_off = λ rest w h. plain-IsCounted w.mock _ refl refl refl refl refl refl refl h;
    deaf = λ lost w h. plain-IsCounted w.mock _ refl refl refl refl refl refl refl h;
    execute = λ line w h. finish_line-IsCounted exec line w h;
    leave = λ w h. h;
  }

  start-IsCounted : (scenario : Scenario) (s : S) → Counted (start scenario s)
  unfolding start new_mock
  start-IsCounted scenario s = record {
    reverted = new_mock_bound (is_scenario scenario good_dns);
    connected = refl;
    damaged = λ soft. omega arith;
  }

  -- In every state that the loop reaches, whatever is sent, executed and interrupted: a resolver that the
  -- DHCP client took back had been repaired before, unless the scenario came with it; each connection is
  -- counted once; and no scenario but `c1damage-hard` damages more lines than it may: two for `garble`,
  -- one for the four others that damage, none for the rest.
  pub run-IsCounted :
      (exec : Text → S → Program S) (deadline : ℕ) (ts : List Moment) (scenario : Scenario) (s : S)
      → IsCounted (run exec deadline ts (start scenario s)).mock
  run-IsCounted exec deadline ts scenario s =
      run-IsKept exec Counted (IsCounted-IsKept exec) deadline ts (start scenario s)
        (start-IsCounted scenario s)
