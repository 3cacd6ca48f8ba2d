-- ===== src/Kernel.antt =====
-- The state that src/process.c and src/synch.c share, and the switch of contexts of src/boot.S.
-- Objects are maps from addresses, one for each field; the first two fields of a `pcb` are those of
-- a queue node, and stand in `store`.
use rpiosv.Base.{ℕ, ◌+◌, ◌/◌, ◌%◌, ◌^◌, ◌==◌, if◌then◌else◌, Addr, update}
use rpiosv.Base.Int.{ℤ}
use rpiosv.Interrupts.Level.{Level}
use rpiosv.Memory.{Machine, u32, sub32}
use rpiosv.Queue.{Store}

-- `proc_saved_state_t`; `r` holds r0 to r12.
pub record SavedState : Type 0 where
  pub cpsr : ℕ
  pub r : ℕ → ℕ
  pub cleanup : ℕ
  pub lr : ℕ

-- The registers of the processor, less CPSR, whose interrupt bit is `machine.irq`.
pub record Registers : Type 0 where
  pub r : ℕ → ℕ
  pub sp : Addr
  pub lr : ℕ
  pub pc : ℕ

pub record Kernel : Type 0 where
  pub machine : Machine
  pub store : Store
  pub registers : Registers
  -- What stands on the stacks, as saved states by their lowest address.
  pub saved : Addr → SavedState
  -- struct semaphore
  pub count : Addr → ℤ
  pub wait_queue : Addr → Addr
  -- struct pcb
  pub stackbase : Addr → Addr
  pub pid : Addr → ℕ
  pub current_stack_pointer : Addr → Addr
  pub awaken_tick : Addr → ℕ
  -- The globals of process.c.
  pub current_context_pcb : Addr
  pub idle_process : Addr
  pub next_pid : ℕ
  pub run_queue : Addr
  pub dead_queue : Addr
  pub dead_queue_semaphore : Addr
  pub ticks : ℕ
  pub tick_queue : Addr
  -- The `h` of arm_timer.c, as the address of its code.
  pub timer_handler : Addr

abbrev pub set_irq : Level → Kernel → Kernel
set_irq l k = record k { machine = record k.machine { irq = l } }

abbrev pub set_store : Store → Kernel → Kernel
set_store s k = record k { store = s }

-- sizeof(proc_saved_state_t)
abbrev pub saved_size : ℕ
saved_size = 64

-- CPSR while a process runs: HYP mode, and bit 7 set while interrupts are disabled.
unfoldable pub cpsr_of : Level → ℕ
cpsr_of irq = if irq then 0x15A else 0x1DA

unfoldable pub level_of : ℕ → Level
level_of cpsr = cpsr / 2 ^ 7 % 2 == 0

-- `context_switch(&old->current_stack_pointer, &new->current_stack_pointer)`: the registers are
-- pushed on the current stack and those of `new` are popped. The call's return address is in `lr`;
-- the pop leaves the first of the two pushed copies of it in `lr` and the second in `pc`. r12 is
-- pushed with the others, and holds CPSR when it is pushed for the second time.
unfoldable pub context_switch : (old new : Addr) → Kernel → Kernel
unfolding cpsr_of level_of
context_switch old new k =
    let g = k.registers in
    let sp' = sub32 g.sp saved_size in
    let state : SavedState = record {
      cpsr = cpsr_of k.machine.irq;
      r = g.r;
      cleanup = g.lr;
      lr = g.lr;
    } in
    let saved' = update k.saved sp' state in
    let csp' = update k.current_stack_pointer old sp' in
    let from = saved' (csp' new) in
    record k {
      saved = saved';
      current_stack_pointer = csp';
      registers = record {
        r = from.r;
        sp = u32 (csp' new + saved_size);
        lr = from.cleanup;
        pc = from.lr;
      };
      machine = record k.machine { irq = level_of from.cpsr };
    }
