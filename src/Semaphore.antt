-- ===== src/Semaphore.antt =====
-- The semaphores of src/synch.c.
pub mod Waiting
pub mod Create
mod Examples
use rpiosv.Base.{ℕ, Bool, true, false, Option, none, some, ◌==◌, if◌then◌else◌, Addr, null, update}
use rpiosv.Base.Int.{ℤ, is_pos, is_neg, succ_ℤ, pred_ℤ}
use rpiosv.Interrupts.Level.{Level, disabled, enabled, interrupts_enabled}
use rpiosv.Memory.{Machine, salloc}
use rpiosv.Queue.{Store, queue_new, queue_append, queue_dequeue, queue_length, Reply}
use rpiosv.Kernel.{Kernel, set_store}
use rpiosv.Scheduler.{interrupt_level, get_current_process, process_start, process_stop, written}

-- sizeof(semaphore_t)
abbrev pub semaphore_size : ℕ
semaphore_size = 8

-- The queue is made after the semaphore; neither pointer is tested. `none` stands for a call that
-- does not return.
unfoldable pub semaphore_create : ℤ → Kernel → Option (Addr × Kernel)
semaphore_create cnt k = elim (salloc semaphore_size k.machine) [
  | none ↦ none
  | some (new_semaphore, m) ↦ elim (queue_new m k.store) [
    | none ↦ none
    | some (q, m', s) ↦ some (
      new_semaphore,
      record k {
        machine = m';
        store = s;
        wait_queue = update k.wait_queue new_semaphore q;
        count = update k.count new_semaphore cnt;
      },
    )
  ]
]

abbrev set_count : Addr → ℤ → Kernel → Kernel
set_count sem v k = record k { count = update k.count sem v }

-- `semaphore_P` by the current process: `true` and the state on return, or `false` and the state at
-- which the next process runs. A process that waited sets the interrupt level once more when it is
-- resumed, by `semaphore_P_resume`.
unfoldable pub semaphore_P : Addr → Kernel → Bool × Kernel
semaphore_P sem k =
    let prev_level = interrupts_enabled k.machine.irq in
    let k1 = interrupt_level disabled k in
    let k2 = set_count sem (pred_ℤ (k1.count sem)) k1 in
    if is_neg (k2.count sem)
    then (let this_proc = get_current_process k2 in
        let k3 = set_store (queue_append (k2.wait_queue sem) this_proc k2.store).1 k2 in
        (false, process_stop k3))
    else (true, interrupt_level prev_level k2)

unfoldable pub semaphore_P_resume : (prev_level : Level) → Kernel → Kernel
semaphore_P_resume prev_level k = interrupt_level prev_level k

-- Start the first process that waits, if there is one.
unfoldable pub wake : Addr → Kernel → Kernel
wake sem k =
    if is_pos (queue_length (k.wait_queue sem) k.store)
    then (let d = queue_dequeue (k.wait_queue sem) true k.store in
        process_start (written null d.0.item) (set_store d.1 k))
    else k

unfoldable pub semaphore_V : Addr → Kernel → Kernel
semaphore_V sem k =
    let prev_level = interrupts_enabled k.machine.irq in
    let k1 = interrupt_level disabled k in
    let k2 = set_count sem (succ_ℤ (k1.count sem)) k1 in interrupt_level prev_level (wake sem k2)
