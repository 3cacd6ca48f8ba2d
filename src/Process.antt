-- ===== src/Process.antt =====
-- The life of a process in src/process.c: creation, end, the reaper, and the start of the system.
-- A function's code is known by its address, an argument of the definitions that store it. A process
-- that gives up the processor is modelled up to the point where the next one runs.
pub mod Switch
pub mod Enter
pub mod End
pub mod Start
pub mod Launch
pub mod Entered
pub mod Parts
pub mod System
mod Examples
use rpiosv.Base.{
  ℕ, zero, ◌+◌, ◌-◌, Bool, true, false, Option, none, some, ◌==◌, ◌>>=◌, if◌then◌else◌, Addr, null,
  update,
}
use rpiosv.Base.Int.{ℤ, pos}
use rpiosv.Interrupts.Level.{Level, disabled, enabled, interrupts_enabled}
use rpiosv.Memory.{Machine, u32, sub32, salloc, sfree}
use rpiosv.Queue.{Store, queue_new, queue_append, queue_dequeue, set_next, set_prev}
use rpiosv.Kernel.{Kernel, SavedState, set_store, saved_size}
use rpiosv.Scheduler.{
  interrupt_level, get_current_process, process_start, process_stop, schedule_next_process, written,
}
use rpiosv.Semaphore.{semaphore_create, semaphore_P, semaphore_V}

-- STACKSIZE and sizeof(process_t)
abbrev pub stacksize : ℕ
stacksize = 0x8000

abbrev pub process_size : ℕ
process_size = 24

-- The first state of a process: `mzero`, and the fields that are set after it.
abbrev pub first_state : (proc arg cleanup : ℕ) → SavedState
first_state proc arg cleanup = record {
  cpsr = 0x15A;
  r = update (λ i. 0) 0 arg;
  cleanup = cleanup;
  lr = proc;
}

abbrev set_machine : Machine → Kernel → Kernel
set_machine m k = record k { machine = m }

-- `next_pid++` with interrupts disabled.
pub take_pid : Addr → Kernel → Kernel
take_pid new_process k =
    let prev_level = interrupts_enabled k.machine.irq in
    let k1 = interrupt_level disabled k in
    let k2 = record k1 {
      pid = update k1.pid new_process k1.next_pid;
      next_pid = u32 (k1.next_pid + 1);
    } in
    interrupt_level prev_level k2

-- The rest of `create_process` once the stack is allocated.
pub set_stack : (proc arg cleanup new_process stackbase : ℕ) → Kernel → Kernel
set_stack proc arg cleanup new_process stackbase k =
    let sp = sub32 (u32 (stackbase + stacksize)) saved_size in
    record k {
      stackbase = update k.stackbase new_process stackbase;
      current_stack_pointer = update k.current_stack_pointer new_process sp;
      saved = update k.saved sp (first_state proc arg cleanup);
    }

-- Neither pointer is tested. `none` stands for a call that does not return.
unfoldable pub create_process : (cleanup : Addr) (proc arg : ℕ) → Kernel → Option (Addr × Kernel)
create_process cleanup proc arg k = elim (salloc process_size k.machine) [
  | none ↦ none
  | some (new_process, m) ↦
      let k1 = take_pid new_process (set_machine m k) in
      let k2 = record k1 {
        current_stack_pointer = update k1.current_stack_pointer new_process null;
      } in
      elim (salloc stacksize k2.machine) [
        | none ↦ none
        | some (base, m') ↦
            some (new_process, set_stack proc arg cleanup new_process base (set_machine m' k2))
      ]
]

unfoldable pub process_fork : (cleanup : Addr) (proc arg : ℕ) → Kernel → Option (Addr × Kernel)
process_fork cleanup proc arg k = elim (create_process cleanup proc arg k) [
  | none ↦ none
  | some (new_proc, k1) ↦ some (new_proc, process_start new_proc k1)
]

-- What a process runs into when its procedure returns.
unfoldable pub cleanup : Kernel → Kernel
cleanup k =
    let k1 = interrupt_level disabled k in
    let k2 = set_store (queue_append k1.dead_queue (get_current_process k1) k1.store).1 k1 in
    schedule_next_process (semaphore_V k2.dead_queue_semaphore k2)

-- A round of the loop of `reaper_process`, after `semaphore_P` has returned.
unfoldable pub reap : Kernel → Kernel
reap k =
    let prev_level = interrupts_enabled k.machine.irq in
    let k1 = interrupt_level disabled k in
    let d = queue_dequeue k1.dead_queue true k1.store in
    let to_free = written null d.0.item in
    let k2 = interrupt_level prev_level (set_store d.1 k1) in
    let m = sfree to_free (sfree (k2.stackbase to_free) k2.machine.memory) in
    set_machine (record k2.machine { memory = m }) k2

-- A round of the loop from its start: if the reaper has to wait, another process runs.
unfoldable pub reaper_round : Kernel → Kernel
reaper_round k = let p = semaphore_P k.dead_queue_semaphore k in if p.0 then reap p.1 else p.1

unfoldable pub initalize_idle_process : Kernel → Option Kernel
initalize_idle_process k = elim (salloc process_size k.machine) [
  | none ↦ none
  | some (idle, m) ↦ some (record k {
    machine = m;
    idle_process = idle;
    store = set_next idle null (set_prev idle null k.store);
    stackbase = update k.stackbase idle null;
    pid = update k.pid idle k.next_pid;
    next_pid = u32 (k.next_pid + 1);
    current_stack_pointer = update k.current_stack_pointer idle null;
  })
]

-- One `queue_new` on the kernel's state.
abbrev new_queue : Kernel → Option (Addr × Kernel)
new_queue k = elim (queue_new k.machine k.store) [
  | none ↦ none
  | some (q, m, s) ↦ some (q, record k { machine = m; store = s })
]

unfoldable pub init_queues : Kernel → Option Kernel
init_queues k = elim (new_queue k) [
  | none ↦ none
  | some (run, k1) ↦ elim (new_queue (record k1 { run_queue = run })) [
    | none ↦ none
    | some (dead, k2) ↦ elim (new_queue (record k2 { dead_queue = dead })) [
      | none ↦ none
      | some (tick, k3) ↦ some (record k3 { tick_queue = tick; ticks = 0 })
    ]
  ]
]

unfoldable pub init_semaphores : Kernel → Option Kernel
init_semaphores k = elim (semaphore_create (pos 0) k) [
  | none ↦ none
  | some (sem, k1) ↦ some (record k1 { dead_queue_semaphore = sem })
]

unfoldable pub set_timer_handler : Addr → Kernel → Kernel
set_timer_handler handler k = record k { timer_handler = handler }

-- The addresses of the functions whose code a process or a handler runs.
pub record Code : Type 0 where
  pub cleanup : Addr
  pub reaper_process : Addr
  pub clock_handler : Addr

-- Up to the first switch of contexts. The idle process calls `schedule_next_process` for ever once
-- it is resumed.
unfoldable pub process_system_initialize : Code → (mainproc mainarg : ℕ) → Kernel → Option Kernel
process_system_initialize code mainproc mainarg k = do
  k1 ← init_queues k
  k2 ← init_semaphores k1
  k3 ← initalize_idle_process k2
  (reaper, k4) ←
      process_fork code.cleanup code.reaper_process null
        (record k3 { current_context_pcb = k3.idle_process })
  (main, k5) ← process_fork code.cleanup mainproc mainarg k4
  some (process_stop (interrupt_level enabled (set_timer_handler code.clock_handler k5)))
