-- ===== src/Samples.antt =====
-- A small kernel: four queues, of which the run queue (1) holds 2001 and 2002, the tick queue (3)
-- 2003 and the wait queue (4) of the semaphore 50 holds 2004; 2000 runs, and 2009 is idle.
pub mod Screens
use rpiosv.Base.{ℕ, ◌+◌, refl, Bool, ◌&&◌, [], ◌∷◌, leb, Addr, arith, update, none, some}
use rpiosv.Base.Int.{ℤ, pos, negsuc}
use rpiosv.Interrupts.Level.{enabled}
use rpiosv.Memory.{Machine, init_smemory, salloc}
use rpiosv.Queue.{Store, queue_append}
use rpiosv.Queue.Family.{Contents, Queues, queue_append-Queues}
use rpiosv.Kernel.{Kernel}
use rpiosv.Scheduler.Turns.{Running}

abbrev pub live : Addr → Bool
live q = leb 1 q && leb q 4

-- Empty queues, with sentinels from 1001 on.
abbrev pub store0 : Store
store0 = record { next = λ p. p; prev = λ p. p; sentinal = λ q. q + 1000; length = λ q. pos 0 }

abbrev pub contents0 : Contents
contents0 q = []

pub store0-Queues : Queues live store0 contents0
store0-Queues = record {
  each = λ q on. record {
    live = ground (arith, on);
    at = refl;
    count = refl;
    ring = (refl, refl);
    distinct = ground arith;
    real = ground arith;
  };
  apart = λ q r onq onr ne p h. ground (arith, ne, h);
}

abbrev pub store1 : Store
store1 = (queue_append 1 2001 store0).1

abbrev pub contents1 : Contents
contents1 = update contents0 1 (2001 ∷ [])

pub store1-Queues : Queues live store1 contents1
store1-Queues =
    (queue_append-Queues store0-Queues 1 refl 2001 (ground arith) (λ q on. ground (arith, on))).0

abbrev pub store2 : Store
store2 = (queue_append 1 2002 store1).1

abbrev pub contents2 : Contents
contents2 = update contents1 1 (2001 ∷ 2002 ∷ [])

pub store2-Queues : Queues live store2 contents2
unfolding queue_append
store2-Queues =
    (queue_append-Queues store1-Queues 1 refl 2002 (ground arith) (λ q on. ground (arith, on))).0

abbrev pub store3 : Store
store3 = (queue_append 3 2003 store2).1

abbrev pub contents3 : Contents
contents3 = update contents2 3 (2003 ∷ [])

pub store3-Queues : Queues live store3 contents3
unfolding queue_append
store3-Queues =
    (queue_append-Queues store2-Queues 3 refl 2003 (ground arith) (λ q on. ground (arith, on))).0

abbrev pub store4 : Store
store4 = (queue_append 4 2004 store3).1

abbrev pub contents4 : Contents
contents4 = update contents3 4 (2004 ∷ [])

pub store4-Queues : Queues live store4 contents4
unfolding queue_append
store4-Queues =
    (queue_append-Queues store3-Queues 4 refl 2004 (ground arith) (λ q on. ground (arith, on))).0

abbrev pub store5 : Store
store5 = (queue_append 2 2005 store4).1

abbrev pub contents5 : Contents
contents5 = update contents4 2 (2005 ∷ [])

pub store5-Queues : Queues live store5 contents5
unfolding queue_append
store5-Queues =
    (queue_append-Queues store4-Queues 2 refl 2005 (ground arith) (λ q on. ground (arith, on))).0

-- A kernel with those queues, the memory `memory`, and `n` as the count of the semaphore.
abbrev pub kernel : Store → Machine → ℤ → Kernel
kernel store machine n = record {
  machine = machine;
  store = store;
  registers = record { r = λ i. 0; sp = 0x9000; lr = 0x8100; pc = 0x8104 };
  saved = λ p. record { cpsr = 0x15A; r = λ i. i; cleanup = 0x8200; lr = 0x8300 };
  count = λ p. n;
  wait_queue = λ p. 4;
  stackbase = λ p. p + 0x10000;
  pid = λ p. 0;
  current_stack_pointer = λ p. p + 0x20000;
  awaken_tick = λ p. 7;
  current_context_pcb = 2000;
  idle_process = 2009;
  next_pid = 3;
  run_queue = 1;
  dead_queue = 2;
  dead_queue_semaphore = 50;
  ticks = 6;
  tick_queue = 3;
  timer_handler = 0;
}

abbrev pub machine0 : Machine
machine0 = record {
  irq = enabled;
  memory = record { block_list_head = 0; size = λ p. 0; next_block = λ p. 0 };
}

-- The kernel with all of them, and the one in which nobody waits.
abbrev pub kernel5 : Kernel
kernel5 = kernel store5 machine0 (negsuc 0)

abbrev pub kernel3 : Kernel
kernel3 = kernel store3 machine0 (pos 1)

pub kernel5-Running : Running live kernel5 contents5
unfolding queue_append
kernel5-Running = record {
  ready = record {
    queues = store5-Queues;
    run_live = refl;
    idle_real = ground arith;
    idle_home = λ q on ne. ground (arith, on, ne);
    idle_node = ground arith;
  };
  current_free = λ q on. ground (arith, on);
  current_real = ground arith;
}

pub kernel3-Running : Running live kernel3 contents3
unfolding queue_append
kernel3-Running = record {
  ready = record {
    queues = store3-Queues;
    run_live = refl;
    idle_real = ground arith;
    idle_home = λ q on ne. ground (arith, on, ne);
    idle_node = ground arith;
  };
  current_free = λ q on. ground (arith, on);
  current_real = ground arith;
}

-- A heap of 0x10000 bytes that nothing has been taken from.
abbrev pub heap : Machine
heap = record {
  irq = enabled;
  memory =
      init_smemory 0x9000 0x10000
        (record { block_list_head = 0; size = λ p. 0; next_block = λ p. 0 });
}

-- The machine after an allocation that returns.
abbrev pub after : ℕ → Machine → Machine
after n m = elim (salloc n m) [ none ↦ m | some (p, m') ↦ m' ]
