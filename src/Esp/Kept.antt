-- ===== src/Esp/Kept.antt =====
-- What every step of the loop of sw/linux/fake_esp.py keeps holds in every state that the loop reaches.
use koti.Base.{ℕ, ◌≡◌, refl, Option, none, some, not, ◌&&◌, ltb, List, [], ◌∷◌, ◌++◌, if_both}
use koti.Base.Text.{Text}
use koti.Esp.Program.{Program}
use koti.Esp.Loop.{
  World, Moment, LoopPhase, idle, busy, stopped, crashed, receive_line, interrupt_idle,
  interrupt_busy, finish_line, idle_line, busy_line, idle_round, busy_round, step_in, loop_step,
  run,
}

module _ {S : Type 0} (exec : Text → S → Program S) (P : World S → Type 0) where
  -- One field for each thing that a step does.
  pub record IsKept : Type 0 where
    pub file : (dev : List ℕ) (w : World S) → P w → P (record w { dev = dev })
    pub receive :
        (now : ℕ) (line : Text) (w : World S) → w.phase ≡ idle → P w → P (receive_line now line w)
    pub prompted : (rest : List ℕ) (w : World S) → w.phase ≡ idle → P w → P (interrupt_idle rest w)
    pub broken_off : (rest : List ℕ) (w : World S) → P w → P (interrupt_busy rest w)
    pub deaf :
        (lost : Text) (w : World S)
        → P w
        → P (record w {
          mock = record (w.mock) { overruns = w.mock.overruns ++ lost ∷ [] };
          dev = [];
        })
    pub execute : (line : Text) (w : World S) → P w → P (finish_line exec line w)
    pub leave : (w : World S) → P w → P (record w { phase = stopped })

  module _ (k : IsKept) where
    idle_line-kept :
        (o : Option Text) (now : ℕ) (dev : List ℕ) (w : World S)
        → w.phase ≡ idle
        → P w
        → P (idle_line o now dev w)
    unfolding idle_line
    idle_line-kept none now dev w p h = k.file dev w h
    idle_line-kept (some line) now dev w p h =
        k.receive now line (record w { dev = [] }) p (k.file [] w h)

    busy_line-kept : (o : Option Text) (dev : List ℕ) (w : World S) → P w → P (busy_line o dev w)
    unfolding busy_line
    busy_line-kept none dev w h = k.file dev w h
    busy_line-kept (some lost) dev w h = k.deaf lost w h

    idle_round-kept :
        (o : Option (List ℕ)) (t : Moment) (w : World S)
        → w.phase ≡ idle
        → P w
        → P (idle_round o t w)
    unfolding idle_round
    idle_round-kept (some rest) t w p h = k.prompted rest w p h
    idle_round-kept none t w p h = idle_line-kept _ t.now _ w p h

    busy_round-kept : (o : Option (List ℕ)) (t : Moment) (w : World S) → P w → P (busy_round o t w)
    unfolding busy_round
    busy_round-kept (some rest) t w h = k.broken_off rest w h
    busy_round-kept none t w h = busy_line-kept _ _ w h

    step_in-kept :
        (q : LoopPhase) (deadline : ℕ) (t : Moment) (w : World S)
        → w.phase ≡ q
        → P w
        → P (step_in q exec deadline t w)
    unfolding step_in
    step_in-kept idle deadline t w p h =
        if_both P (ltb t.now deadline && not t.stop) _ _ (idle_round-kept _ t w p h) (k.leave w h)
    step_in-kept (busy end line) deadline t w p h =
        if_both P (ltb t.now end) _ _ (busy_round-kept _ t w h) (k.execute line w h)
    step_in-kept stopped deadline t w p h = h
    step_in-kept crashed deadline t w p h = h

    pub step-IsKept :
        (deadline : ℕ) (t : Moment) (w : World S) → P w → P (loop_step exec deadline t w)
    unfolding loop_step
    step-IsKept deadline t w h = step_in-kept w.phase deadline t w refl h

    pub run-IsKept :
        (deadline : ℕ) (ts : List Moment) (w : World S) → P w → P (run exec deadline ts w)
    unfolding run
    run-IsKept deadline [] w h = h
    run-IsKept deadline (t ∷ ts) w h =
        run-IsKept deadline ts (loop_step exec deadline t w) (step-IsKept deadline t w h)
