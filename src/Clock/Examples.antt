-- ===== src/Clock/Examples.antt =====
-- The theorems on sleeping and on the tick at a small kernel.
use rpiosv.Base.{◌+◌, ◌≡◌, refl, true, [], ◌∷◌, arith, update}
use rpiosv.Base.Int.{pos}
use rpiosv.Interrupts.Level.{enabled}
use rpiosv.Memory.{u32}
use rpiosv.Queue.{queue_append}
use rpiosv.Queue.State.{IsQueue}
use rpiosv.Scheduler.{process_start, get_current_process}
use rpiosv.Scheduler.Turns.{Running}
use rpiosv.Clock.{sleep_ticks, sleep_enqueue, proc_sleep_ms}
use rpiosv.Clock.Sleep.{slept, proc_sleep_ms-Running}
use rpiosv.Clock.Window.{sleep_enqueue-window}
use rpiosv.Clock.Tick.{Ticked, clock_handler-Ticked}
use rpiosv.Samples.{live, kernel5, contents5, kernel5-Running}

clock_handler-Ticked_example : Ticked live 2 kernel5 contents5
clock_handler-Ticked_example =
    clock_handler-Ticked 2 kernel5-Running refl (ground arith) (omega arith)

proc_sleep_ms-Running_example :
    Running live (proc_sleep_ms (pos 120) kernel5) (update (slept kernel5 contents5) 1 (2002 ∷ []))
    × ((proc_sleep_ms (pos 120) kernel5).current_context_pcb ≡ 2001)
    × ((proc_sleep_ms (pos 120) kernel5).awaken_tick 2000 ≡ u32 (sleep_ticks (pos 120) + 6))
    × ((proc_sleep_ms (pos 120) kernel5).machine.irq ≡ enabled)
proc_sleep_ms-Running_example =
    proc_sleep_ms-Running kernel5-Running refl (ground arith) (ground arith) (pos 120)

sleep_enqueue-window_example :
    ((sleep_enqueue (pos 120) kernel5).machine.irq ≡ true)
    × (¬ IsQueue
        (process_start
          (get_current_process (sleep_enqueue (pos 120) kernel5))
          (sleep_enqueue (pos 120) kernel5)).store
        3
        1003
        (2003 ∷ 2000 ∷ []))
unfolding queue_append
sleep_enqueue-window_example =
    sleep_enqueue-window kernel5-Running refl (ground arith) (ground arith) (pos 120)
      (2003 ∷ 2000 ∷ [])
