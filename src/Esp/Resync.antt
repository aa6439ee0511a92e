-- ===== src/Esp/Resync.antt =====
-- A Ctrl-C brings the far end of sw/linux/fake_esp.py back to a fresh prompt, whatever it was doing.
use koti.Base.{
  ℕ, ◌+◌, ◌<◌, ◌≡◌, refl, sym, ap, ◌∙◌, subst, inl, inr, arith, some, Bool, true, false, not, ◌&&◌,
  ◌||◌, ltb, lt→ltb, List, [], ◌∷◌, ◌++◌, if_both, if_each, Bool-cases, Option-cases,
}
use mathlib.Core.Option.{some-injective}
use koti.Base.Text.{Text, lit}
use koti.Esp.Pages.{Scenario, no_dhcp, good_dns, is_scenario}
use koti.Esp.Mock.{Mock, dns, dhcp_tick}
use koti.Esp.Program.{Program}
use koti.Esp.Damage.{
  damage, garble_line, flaky_line, request_line, program_line, spoil, hits_garble, hits_flaky,
  hits_request, hits_program, hits_continuation,
}
use koti.Esp.Loop.{
  World, LoopPhase, Moment, idle, busy, stopped, crashed, start, begin_line, receive_line, prompt,
  burst, look, interrupt_idle, interrupt_busy, finish_line, eat_interrupt, idle_round, busy_round,
  step_in, loop_step, run,
}
use koti.Esp.Kept.{IsKept, run-IsKept}

-- The far end is not in the middle of a statement while it executes one.
abbrev pub Asking : LoopPhase → Mock → Type 0
Asking (busy end line) m = m.continuing ≡ false
Asking idle m = Unit
Asking stopped m = Unit
Asking crashed m = Unit

dhcp_tick-continuing : (m m' : Mock) → dhcp_tick m ≡ some m' → m'.continuing ≡ m.continuing
unfolding dhcp_tick
dhcp_tick-continuing m m' e =
    elim (Bool-cases (is_scenario m.scenario no_dhcp || is_scenario m.scenario good_dns)) [
      | inl off ↦
          ap (λ (k : Mock). k.continuing) (sym (some-injective _ _ (rw (off, dhcp_tick) at e)))
      | inr on ↦ elim (Option-cases (dns m)) [
        | inl short ↦ absurd (cc (rw (on, short, dhcp_tick) at e))
        | inr (d, found) ↦
            ap (λ (k : Mock). k.continuing)
              (sym (some-injective _ _ (rw (on, found, dhcp_tick) at e)))
      ]
    ]

spoil-continuing :
    (hit : Bool) (changed : Text) (p : Mock × Text)
    → (spoil hit changed p).0.continuing ≡ p.0.continuing
spoil-continuing true changed (m, line) = refl
spoil-continuing false changed (m, line) = refl

program_line-continuing : (p : Mock × Text) → (program_line p).0.continuing ≡ p.0.continuing
unfolding program_line
program_line-continuing (m, line) = spoil-continuing (hits_program m line) _ (m, line)

damage-continuing : (m : Mock) (line : Text) → (damage m line).0.continuing ≡ m.continuing
unfolding damage garble_line flaky_line request_line
damage-continuing m line =
    let p = garble_line (m, line) in
    let q = flaky_line p in
    spoil-continuing (hits_request q.0 q.1) _ q
    ∙ spoil-continuing (hits_flaky p.0 p.1) _ p
    ∙ spoil-continuing (hits_garble m line) _ (m, line)

Asking-overruns :
    (q : LoopPhase) (m : Mock) (overruns : List Text)
    → Asking q m
    → Asking q (record m { overruns = overruns })
Asking-overruns (busy end line) m overruns h = h
Asking-overruns idle m overruns h = tt
Asking-overruns stopped m overruns h = tt
Asking-overruns crashed m overruns h = tt

-- Whether the loop looks at the file: at its test before the deadline, in `busy` before its end.
abbrev pub Looks : LoopPhase → ℕ → Moment → Type 0
Looks idle deadline t = (t.now < deadline) × (t.stop ≡ false)
Looks (busy end line) deadline t = t.now < end
Looks stopped deadline t = ⊥
Looks crashed deadline t = ⊥

module _ {S : Type 0} where
  abbrev AsksFresh : World S → Type 0
  AsksFresh w = Asking w.phase w.mock

  begin_line-AsksFresh :
      (now : ℕ) (line : Text) (m : Mock) (w : World S)
      → m.continuing ≡ false
      → AsksFresh (begin_line now line m w)
  unfolding begin_line
  begin_line-AsksFresh now line m w h =
      let m' = record m { lines = m.lines ++ line ∷ []; out = [] } in
      elim (Option-cases (dhcp_tick m')) [
        | inl short ↦ rw (short, begin_line) tt
        | inr (ticked, found) ↦ rw (found, begin_line) (dhcp_tick-continuing m' ticked found ∙ h)
      ]

  receive_line-AsksFresh :
      (now : ℕ) (line : Text) (w : World S) → w.phase ≡ idle → AsksFresh (receive_line now line w)
  unfolding receive_line
  receive_line-AsksFresh now line w p =
      let d = damage w.mock line in
      let waiting = λ (m : Mock). subst (λ (q : LoopPhase). Asking q m) (sym p) tt in
      if_each AsksFresh w.mock.continuing _ _ (λ on. waiting _)
        (λ off. if_both AsksFresh (hits_continuation d.0 d.1) _ _ (waiting _) (
          begin_line-AsksFresh now (program_line d).1 (program_line d).0 w
            (program_line-continuing d ∙ damage-continuing w.mock line ∙ off)))

  AsksFresh-IsKept : (exec : Text → S → Program S) → IsKept exec AsksFresh
  unfolding interrupt_idle interrupt_busy finish_line
  AsksFresh-IsKept exec = record {
    file = λ dev w h. h;
    receive = λ now line w p h. receive_line-AsksFresh now line w p;
    prompted =
        λ rest w p h. subst (λ (q : LoopPhase). Asking q (interrupt_idle rest w).mock) (sym p) tt;
    broken_off = λ rest w h. tt;
    deaf = λ lost w h. Asking-overruns w.phase w.mock _ h;
    execute = λ line w h. tt;
    leave = λ w h. tt;
  }

  run-AsksFresh :
      (exec : Text → S → Program S) (deadline : ℕ) (ts : List Moment) (scenario : Scenario) (s : S)
      → AsksFresh (run exec deadline ts (start scenario s))
  unfolding start
  run-AsksFresh exec deadline ts scenario s =
      run-IsKept exec AsksFresh (AsksFresh-IsKept exec) deadline ts (start scenario s) tt

  -- The far end as a Ctrl-C leaves it.
  pub record IsFresh (w : World S) (rest : List ℕ) (t : World S) : Type 0 where
    pub phase : t.phase ≡ idle
    pub fresh : t.mock.continuing ≡ false
    pub counted : t.mock.interrupts ≡ w.mock.interrupts + 1
    pub unexecuted : t.kept_state ≡ w.kept_state
    pub lines : t.mock.lines ≡ w.mock.lines
    pub rest_kept : t.dev ≡ rest
    pub prompted : (before : List ℕ) × (t.cap ≡ burst prompt before)

  interrupt_idle-IsFresh :
      (rest : List ℕ) (w : World S) → w.phase ≡ idle → IsFresh w rest (interrupt_idle rest w)
  unfolding interrupt_idle
  interrupt_idle-IsFresh rest w p = record {
    phase = p;
    fresh = refl;
    counted = refl;
    unexecuted = refl;
    lines = refl;
    rest_kept = refl;
    prompted = (burst (lit "zz\r\n") w.cap, refl);
  }

  interrupt_busy-IsFresh :
      (rest : List ℕ) (w : World S)
      → w.mock.continuing ≡ false
      → IsFresh w rest (interrupt_busy rest w)
  unfolding interrupt_busy
  interrupt_busy-IsFresh rest w c = record {
    phase = refl;
    fresh = c;
    counted = refl;
    unexecuted = refl;
    lines = refl;
    rest_kept = refl;
    prompted = (burst (lit "zzKeyboardInterrupt\r\n") w.cap, refl);
  }

  step_in-resync :
      (q : LoopPhase) (exec : Text → S → Program S) (deadline : ℕ) (t : Moment) (w : World S)
      {rest : List ℕ}
      → w.phase ≡ q
      → Asking q w.mock
      → Looks q deadline t
      → eat_interrupt (look t.first w.dev) ≡ some rest
      → IsFresh w rest (step_in q exec deadline t w)
  unfolding step_in idle_round busy_round
  step_in-resync idle exec deadline t w {rest} p asking looks there =
      let early : (ltb t.now deadline && not t.stop) ≡ true = ground (arith, looks.0, looks.1) in
      rw (early, there, idle_round) (interrupt_idle-IsFresh rest w p)
  step_in-resync (busy end line) exec deadline t w {rest} p asking looks there =
      rw (lt→ltb t.now end looks, there, busy_round) (interrupt_busy-IsFresh rest w asking)
  step_in-resync stopped exec deadline t w p asking looks there = absurd looks
  step_in-resync crashed exec deadline t w p asking looks there = absurd looks

  -- In every state that the loop reaches, at the prompt, in the middle of a statement or in the middle
  -- of a command: if it looks at the file and a Ctrl-C is there, the next step leaves it at a fresh prompt
  -- with the interrupt counted, no line executed or taken, and in the file what stood behind the Ctrl-C.
  pub run-resync :
      (exec : Text → S → Program S) (deadline : ℕ) (ts : List Moment) (scenario : Scenario) (s : S)
      (t : Moment) {rest : List ℕ}
      → let w = run exec deadline ts (start scenario s) in
        Looks w.phase deadline t
        → eat_interrupt (look t.first w.dev) ≡ some rest
        → IsFresh w rest (loop_step exec deadline t w)
  unfolding loop_step
  run-resync exec deadline ts scenario s t {rest} looks there =
      let w = run exec deadline ts (start scenario s) in
      step_in-resync w.phase exec deadline t w refl (run-AsksFresh exec deadline ts scenario s)
        looks there
