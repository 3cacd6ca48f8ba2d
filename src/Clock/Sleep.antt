-- ===== src/Clock/Sleep.antt =====
-- `proc_sleep_ms`, and the window between its two halves.
use rpiosv.Base.{ℕ, ◌+◌, ◌≡◌, ◌≢◌, true, [], ◌∷◌, ◌++◌, Bool, Addr, arith, update}
use rpiosv.Base.Int.{ℤ}
use rpiosv.Interrupts.Level.{
  disabled, enabled, set_interrupt_level, interrupts_enabled, set_interrupt_level-restore,
}
use rpiosv.Memory.{u32}
use rpiosv.Queue.Family.{Contents}
use rpiosv.Kernel.{Kernel, context_switch}
use rpiosv.Scheduler.{process_stop, get_current_process}
use rpiosv.Scheduler.Turns.{Ready, Running, turn, later, quiet, schedule_next_process-turn}
use rpiosv.Scheduler.Blocking.{blocked-Ready}
use rpiosv.Clock.{sleep_ticks, sleep_enqueue, proc_sleep_ms}

awaken_at :
    (f : Addr → ℕ) {live : Addr → Bool} {k : Kernel} {c : Contents}
    → Ready live k c
    → Ready live (record k { awaken_tick = f }) c
awaken_at f r = record {
  queues = r.queues;
  run_live = r.run_live;
  idle_real = r.idle_real;
  idle_home = r.idle_home;
  idle_node = r.idle_node;
}

update-at : (f : Addr → ℕ) (p : Addr) (v : ℕ) → update f p v p ≡ v
update-at f p v = ground arith

-- The contents with the running process last on the tick queue.
abbrev pub slept : Kernel → Contents → Contents
slept k c = update c k.tick_queue (c k.tick_queue ++ k.current_context_pcb ∷ [])

module _ {live : Addr → Bool} {k : Kernel} {c : Contents} (run : Running live k c)
    (on : live k.tick_queue ≡ true) (own : k.tick_queue ≢ k.run_queue)
    (busy : k.current_context_pcb ≢ k.idle_process) where
  pub sleep_enqueue-Ready :
      (sleepms : ℤ)
      → Ready live (sleep_enqueue sleepms k) (slept k c)
        × ((sleep_enqueue sleepms k).machine.irq ≡ k.machine.irq)
  unfolding sleep_enqueue get_current_process
  sleep_enqueue-Ready sleepms =
      let tick = u32 (sleep_ticks sleepms + k.ticks) in
      let prev = interrupts_enabled k.machine.irq in
      let l = set_interrupt_level disabled k.machine.irq in
      (
        quiet (set_interrupt_level prev l) (
            awaken_at (update k.awaken_tick k.current_context_pcb tick)
              (blocked-Ready run k.tick_queue on own busy)),
        set_interrupt_level-restore disabled k.machine.irq,
      )

  -- `proc_sleep_ms`, called by a process other than the idle one: the caller is last on the tick
  -- queue, with the tick at which it is due, and the next process in turn runs.
  pub proc_sleep_ms-Running :
      (sleepms : ℤ)
      → Running live
          (proc_sleep_ms sleepms k)
          (update (slept k c) k.run_queue (later (c k.run_queue)))
        × ((proc_sleep_ms sleepms k).current_context_pcb ≡ turn k.idle_process (c k.run_queue))
        × ((proc_sleep_ms sleepms k).awaken_tick k.current_context_pcb
            ≡ u32 (sleep_ticks sleepms + k.ticks))
        × ((proc_sleep_ms sleepms k).machine.irq ≡ enabled)
  unfolding proc_sleep_ms process_stop sleep_enqueue get_current_process context_switch
  proc_sleep_ms-Running sleepms =
      let (ready, _) = sleep_enqueue-Ready sleepms in
      let (next, after, irq) = schedule_next_process-turn ready in
      let here : slept k c k.run_queue ≡ c k.run_queue = ground (arith, own) in
      let next' = rw here at next in
      let after' = rw here at after in
      (
        after',
        next',
        update-at k.awaken_tick k.current_context_pcb (u32 (sleep_ticks sleepms + k.ticks)),
        irq,
      )
