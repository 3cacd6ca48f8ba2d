-- ===== src/Scheduler.antt =====
-- The scheduler of src/process.c. A function that gives up the processor is modelled up to the point
-- where the next process runs: the rest of it is what that process does when it is resumed.
pub mod Turns
pub mod RoundRobin
pub mod Blocking
pub mod Staying
mod Examples
use rpiosv.Base.{ℕ, Bool, true, false, Option, none, some, ◌==◌, if◌then◌else◌, Addr, null, update}
use rpiosv.Base.Int.{ℤ, is_pos}
use rpiosv.Interrupts.Level.{Level, disabled, enabled, set_interrupt_level, interrupts_enabled}
use rpiosv.Memory.{Machine}
use rpiosv.Queue.{Store, queue_append, queue_dequeue, queue_length, Reply}
use rpiosv.Kernel.{Kernel, set_irq, set_store, context_switch}

-- SET_INTERRUPT_LEVEL on the kernel's state.
abbrev pub interrupt_level : Level → Kernel → Kernel
interrupt_level en k = set_irq (set_interrupt_level en k.machine.irq) k

unfoldable pub get_current_process : Kernel → Addr
get_current_process k = k.current_context_pcb

unfoldable pub process_start : Addr → Kernel → Kernel
process_start t k =
    let prev_level = interrupts_enabled k.machine.irq in
    let k1 = interrupt_level disabled k in
    let k2 = set_store (queue_append k1.run_queue t k1.store).1 k1 in interrupt_level prev_level k2

-- The value that a call wrote through a pointer to a variable that held `old`.
abbrev pub written : Addr → Option Addr → Addr
written old none = old
written old (some p) = p

-- The choice of `next_proc`, and the store after it.
pub pick_next : Kernel → Addr × Store
pick_next k =
    if is_pos (queue_length k.run_queue k.store)
    then (let d = queue_dequeue k.run_queue true k.store in (written null d.0.item, d.1))
    else (k.idle_process, k.store)

-- Interrupts are enabled after the switch: a process that called this function before enables them
-- as it returns, and the saved state of a new process has them enabled.
unfoldable pub schedule_next_process : Kernel → Kernel
unfolding get_current_process pick_next
schedule_next_process k =
    let k1 = interrupt_level disabled k in
    let cur_proc = get_current_process k1 in
    let chosen = pick_next k1 in
    let k2 = record k1 { store = chosen.1; current_context_pcb = chosen.0 } in
    interrupt_level enabled (context_switch cur_proc chosen.0 k2)

unfoldable pub process_stop : Kernel → Kernel
unfolding schedule_next_process
process_stop k = schedule_next_process k

unfoldable pub process_yield : Kernel → Kernel
unfolding process_start schedule_next_process get_current_process
process_yield k = schedule_next_process (process_start (get_current_process k) k)
