-- ===== src/Semaphore/Examples.antt =====
-- The theorems on the semaphores at a small kernel.
use rpiosv.Base.{◌≡◌, refl, true, false, [], arith, update}
use rpiosv.Semaphore.{semaphore_P, semaphore_V}
use rpiosv.Scheduler.Turns.{Ready, Running}
use rpiosv.Scheduler.RoundRobin.{started}
use rpiosv.Semaphore.Waiting.{
  Balanced, HasQueue, handed_over, semaphore_P-blocks, semaphore_V-wakes,
}
use rpiosv.Samples.{live, kernel5, contents5, kernel5-Running}

has_queue5 : HasQueue live kernel5 50
has_queue5 = record { wait_live = refl; wait_own = ground arith }

semaphore_P-blocks_example :
    ((semaphore_P 50 kernel5).0 ≡ false)
    × ((semaphore_P 50 kernel5).1.current_context_pcb ≡ 2001)
    × Running live (semaphore_P 50 kernel5).1 (handed_over kernel5 contents5 50)
    × Balanced ((semaphore_P 50 kernel5).1.count 50) (handed_over kernel5 contents5 50 4)
semaphore_P-blocks_example =
    semaphore_P-blocks kernel5-Running 50 has_queue5 (ground arith) refl refl

semaphore_V-wakes_example :
    Ready live (semaphore_V 50 kernel5) (started kernel5 (update contents5 4 []) 2004)
    × Balanced ((semaphore_V 50 kernel5).count 50) []
    × ((semaphore_V 50 kernel5).current_context_pcb ≡ 2000)
    × ((semaphore_V 50 kernel5).machine.irq ≡ true)
semaphore_V-wakes_example = semaphore_V-wakes kernel5-Running.ready 50 has_queue5 2004 [] refl refl
