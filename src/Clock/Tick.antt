-- ===== src/Clock/Tick.antt =====
-- What a timer interrupt does: `clock_handler` as a whole.
use rpiosv.Base.{
  ℕ, ◌+◌, ◌<◌, ◌≡◌, ◌≢◌, ap, ◌∙◌, true, none, some, [], ◌∷◌, ◌++◌, append_assoc, Bool, Addr, arith,
  length,
}
use rpiosv.Interrupts.Level.{Level, disabled, enabled, set_interrupt_level, interrupts_enabled}
use rpiosv.Memory.{u32}
use rpiosv.Queue.Walk.{find_first}
use rpiosv.Queue.Family.{Contents}
use rpiosv.Kernel.{Kernel, set_irq}
use rpiosv.Scheduler.{process_yield}
use rpiosv.Scheduler.Turns.{Running, quiet}
use rpiosv.Scheduler.RoundRobin.{process_yield-Running, line, yielded}
use rpiosv.Clock.{clock_handler}
use rpiosv.Clock.Due.{due, rest, find_first-rest}
use rpiosv.Clock.Handler.{wakes, woken, awaken_loop-Woken}

-- The state in which the loop starts.
abbrev pub ticked : Kernel → Kernel
ticked k = record (set_irq (set_interrupt_level disabled k.machine.irq) k) {
  ticks = u32 (k.ticks + 1);
}

quiet-Running :
    (l : Level) {live : Addr → Bool} {k : Kernel} {c : Contents}
    → Running live k c
    → Running live (set_irq l k) c
quiet-Running l run = record {
  ready = quiet l run.ready;
  current_free = run.current_free;
  current_real = run.current_real;
}

ticked-Running :
    {live : Addr → Bool} {k : Kernel} {c : Contents} → Running live k c → Running live (ticked k) c
ticked-Running {k = k} run =
    let r = quiet-Running (set_interrupt_level disabled k.machine.irq) run in
    record {
      ready = record {
        queues = r.ready.queues;
        run_live = r.ready.run_live;
        idle_real = r.ready.idle_real;
        idle_home = r.ready.idle_home;
        idle_node = r.ready.idle_node;
      };
      current_free = r.current_free;
      current_real = r.current_real;
    }

-- What a timer interrupt leaves: a kernel that holds `contents`.
pub record Ticked (live : Addr → Bool) (fuel : ℕ) (k : Kernel) (c : Contents) : Type 0 where
  pub result : Kernel
  pub contents : Contents
  pub returns : clock_handler fuel k ≡ some result
  pub running : Running live result contents
  -- Those that are due stand behind those that were ready, and the interrupted process is last.
  pub queued :
      line result contents
      ≡ c k.run_queue ++ (due (wakes (ticked k)) (c k.tick_queue) ++ k.current_context_pcb ∷ [])
  pub asleep : contents k.tick_queue ≡ rest (wakes (ticked k)) (c k.tick_queue)
  pub none_due : find_first (wakes (ticked k)) (contents k.tick_queue) ≡ none
  pub irq : result.machine.irq ≡ enabled

module _ {live : Addr → Bool} where
  -- With fuel for the tick queue `clock_handler` returns. Every process whose tick has come is then
  -- in line behind those that were ready, in the order in which it went to sleep, and the
  -- interrupted process is last; the others still sleep, none of them due; interrupts are enabled.
  pub clock_handler-Ticked :
      (fuel : ℕ) {k : Kernel} {c : Contents}
      → Running live k c
      → live k.tick_queue ≡ true
      → k.tick_queue ≢ k.run_queue
      → length (c k.tick_queue) < fuel
      → Ticked live fuel k c
  unfolding clock_handler
  clock_handler-Ticked fuel {k} {c} run on own h =
      let w = awaken_loop-Woken fuel (ticked-Running run) on own h in
      let prev = interrupts_enabled k.machine.irq in
      let c' = woken (ticked k) c in
      let k3 = set_irq (set_interrupt_level prev w.result.machine.irq) w.result in
      let (moved, after, irq) =
        process_yield-Running
          (quiet-Running (set_interrupt_level prev w.result.machine.irq) w.running) in
      let sleepers : c' k.tick_queue ≡ rest (wakes (ticked k)) (c k.tick_queue) =
        ground (arith, own) in
      let at_run : c' k.run_queue ≡ c k.run_queue ++ due (wakes (ticked k)) (c k.tick_queue) =
        ground arith in
      let same : yielded k3 c' k.tick_queue ≡ c' k.tick_queue =
        rw w.same_run (ground (arith, own)) in
      record {
        result = process_yield k3;
        contents = yielded k3 c';
        returns = rw (clock_handler, w.returns);
        running = after;
        queued =
            moved
            ∙ ap (λ r. c' r ++ w.result.current_context_pcb ∷ []) w.same_run
            ∙ ap (λ n. c' k.run_queue ++ n ∷ []) w.same_current
            ∙ ap (λ zs. zs ++ k.current_context_pcb ∷ []) at_run
            ∙ append_assoc (c k.run_queue) (due (wakes (ticked k)) (c k.tick_queue))
                (k.current_context_pcb ∷ []);
        asleep = same ∙ sleepers;
        none_due = rw (same, sleepers) (find_first-rest (wakes (ticked k)) (c k.tick_queue));
        irq = irq;
      }
