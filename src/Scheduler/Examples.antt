-- ===== src/Scheduler/Examples.antt =====
-- The theorems on the scheduler at a small kernel.
use rpiosv.Base.{◌≡◌, refl, [], ◌∷◌, update}
use rpiosv.Interrupts.Level.{enabled}
use rpiosv.Scheduler.{schedule_next_process}
use rpiosv.Scheduler.Turns.{Running, Switched, schedule_next_process-Running}
use rpiosv.Scheduler.RoundRobin.{yields, yields-turn}
use rpiosv.Samples.{live, kernel5, contents5, kernel5-Running}

schedule_next_process-Running_example :
    ((schedule_next_process kernel5).current_context_pcb ≡ 2001)
    × Switched kernel5.current_context_pcb 2001 kernel5 (schedule_next_process kernel5)
    × Running live (schedule_next_process kernel5) (update contents5 1 (2002 ∷ []))
    × ((schedule_next_process kernel5).machine.irq ≡ enabled)
schedule_next_process-Running_example = schedule_next_process-Running kernel5-Running.ready

yields-turn_example : (yields 2 kernel5).current_context_pcb ≡ 2002
yields-turn_example = yields-turn (2001 ∷ []) [] 2002 kernel5-Running refl
