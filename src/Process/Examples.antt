-- ===== src/Process/Examples.antt =====
-- The theorems on processes at a small kernel.
use rpiosv.Base.{
  null, ◌+◌, ◌≢◌, Bool, false, Addr, List, ◌≡◌, refl, true, some, [], ◌∷◌, arith, update,
}
use rpiosv.Base.Int.{pos, negsuc}
use rpiosv.Interrupts.Level.{enabled, disabled, set_interrupt_level, interrupts_enabled}
use rpiosv.Memory.{salloc, walk, take_block, init_smemory, round_size, sfree}
use rpiosv.Queue.{queue_append}
use rpiosv.Queue.State.{Frame}
use rpiosv.Queue.Family.{Contents, Free}
use rpiosv.Kernel.{Kernel, context_switch}
use rpiosv.Scheduler.Turns.{Ready, Running, popped}
use rpiosv.Semaphore.Waiting.{HasQueue}
use rpiosv.Process.{Code, process_system_initialize, cleanup, reap}
use rpiosv.Process.Start.{nothing}
use rpiosv.Process.Entered.{entering}
use rpiosv.Process.System.{System, process_system_initialize-Running}
use rpiosv.Memory.Blocks.{Block, fits}
use rpiosv.Memory.Take.{IsHeap}
use rpiosv.Memory.Sfree.{init_smemory-IsHeap}
use rpiosv.Memory.Room.{roomy}
use rpiosv.Memory.Grants.{room_for}
use rpiosv.Process.Switch.{context_switch-resume}
use rpiosv.Process.Enter.{Created, created_process, create_process-enters}
use rpiosv.Process.End.{cleanup-wakes, reap-Ready}
use rpiosv.Samples.{
  live, kernel, store5, kernel5, contents5, kernel5-Running, store5-Queues, heap, after,
}

-- The kernel with a heap.
abbrev kernel9 : Kernel
kernel9 = kernel store5 heap (negsuc 0)

kernel9-Running : Running live kernel9 contents5
kernel9-Running = record {
  ready = record {
    queues = store5-Queues;
    run_live = refl;
    idle_real = kernel5-Running.ready.idle_real;
    idle_home = kernel5-Running.ready.idle_home;
    idle_node = kernel5-Running.ready.idle_node;
  };
  current_free = kernel5-Running.current_free;
  current_real = kernel5-Running.current_real;
}

first_salloc : salloc 24 heap ≡ some (0x9010, after 24 heap)
unfolding salloc walk take_block init_smemory round_size set_interrupt_level interrupts_enabled
first_salloc = refl

second_salloc : salloc 0x8000 (after 24 heap) ≡ some (0x9040, after 0x8000 (after 24 heap))
unfolding salloc walk take_block init_smemory round_size set_interrupt_level interrupts_enabled
second_salloc = refl

abbrev created : Created 0x8200 0x8400 5 kernel9
created =
    created_process 0x8200 0x8400 5 kernel9 0x9010 0x9040 (after 24 heap)
      (after 0x8000 (after 24 heap)) first_salloc second_salloc

create_process-enters_example :
    ((context_switch 2000 0x9010 created.result).registers
      ≡ record { r = update (λ i. 0) 0 5; sp = 0x9040 + 0x8000; lr = 0x8200; pc = 0x8400 })
    × ((context_switch 2000 0x9010 created.result).machine.irq ≡ enabled)
unfolding created_process
create_process-enters_example =
    create_process-enters 0x8200 0x8400 5 kernel9 0x9010 0x9040 (after 24 heap)
      (after 0x8000 (after 24 heap)) created.result created.result 2000 first_salloc second_salloc
      created.returns (ground arith) (omega arith) refl refl (ground arith)

-- Process 2000 gives way to 2001, and the machine comes back from 2001 with its stack elsewhere.
abbrev left : Kernel
left = context_switch 2000 2001 kernel5

abbrev back : Kernel
back = record left { registers = record { r = λ i. 3; sp = 0x30000; lr = 1; pc = 2 } }

context_switch-resume_example :
    ((context_switch 2001 2000 back).registers
      ≡ record kernel5.registers { pc = kernel5.registers.lr })
    × ((context_switch 2001 2000 back).machine.irq ≡ kernel5.machine.irq)
unfolding context_switch
context_switch-resume_example =
    context_switch-resume 2000 2001 2001 kernel5 back (ground arith) (omega arith) (omega arith)
      refl refl (ground arith)

has_queue5 : HasQueue live kernel5 50
has_queue5 = record { wait_live = refl; wait_own = ground arith }

cleanup-wakes_example :
    (cs : Contents) × Running live (cleanup kernel5) cs
    × (cs 2 ≡ 2005 ∷ 2000 ∷ [])
    × (cs 1 ≡ 2002 ∷ 2004 ∷ [])
    × (cs 4 ≡ [])
    × ((cleanup kernel5).current_context_pcb ≡ 2001)
    × ((cleanup kernel5).machine.irq ≡ enabled)
cleanup-wakes_example =
    cleanup-wakes kernel5-Running refl (ground arith) has_queue5 (ground arith) (ground arith) 2004
      [] refl refl

reap-Ready_example :
    Ready live (reap kernel5) (update contents5 2 [])
    × Free live (reap kernel5).store (update contents5 2 []) 2005
    × ((reap kernel5).machine.memory
        ≡ sfree 2005 (sfree (kernel5.stackbase 2005) kernel5.machine.memory))
    × ((reap kernel5).machine.irq ≡ true)
    × (reap kernel5
        ≡ record kernel5 { store = (reap kernel5).store; machine = (reap kernel5).machine })
    × Frame (1002 ∷ []) 2 store5 (reap kernel5).store
unfolding queue_append
reap-Ready_example = reap-Ready kernel5-Running.ready refl (ground arith) 2005 [] refl

-- A kernel that starts on a heap of 1 MB.
abbrev megabyte : Kernel
megabyte =
    kernel store5 (record { irq = disabled; memory = init_smemory 0x9000 0x100000 heap.memory })
      (pos 0)

abbrev whole : List Block
whole = record { addr = 0x9000; capacity = 0xffff0; used = false } ∷ []

whole-IsHeap : IsHeap 0x9000 (0x9000 + 0x100000) megabyte.machine.memory whole
whole-IsHeap =
    init_smemory-IsHeap 0x9000 0x100000 _ (omega arith) refl refl (omega arith) (omega arith)

abbrev code : Code
code = record { cleanup = 0x8200; reaper_process = 0x8300; clock_handler = 0x8500 }

process_system_initialize-Running_example :
    (k' : Kernel) × (process_system_initialize code 0x8400 5 megabyte ≡ some k')
    × (live : Addr → Bool) × (reaper : Addr) × (main : Addr) × (k'.registers
        ≡ entering 0x8300 null 0x8200 (k'.stackbase reaper))
    × (popped main k' ≡ entering 0x8400 5 0x8200 (k'.stackbase main))
    × Running live k' (update nothing k'.run_queue (main ∷ []))
    × (k'.current_context_pcb ≡ reaper)
    × (reaper ≢ main)
    × (k'.machine.irq ≡ enabled)
    × System live k'
    × (k'.timer_handler ≡ 0x8500)
unfolding roomy room_for fits round_size
process_system_initialize-Running_example =
    process_system_initialize-Running code 0x8400 5 0x9000 (0x9000 + 0x100000) megabyte whole
      whole-IsHeap refl (omega arith) (omega arith)
