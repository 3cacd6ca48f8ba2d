-- ===== src/Process/Launch.antt =====
-- The second half of `process_system_initialize`: two processes are made, and the first runs.
use rpiosv.Base.{
  ℕ, ◌≡◌, refl, sym, ap, subst, fun_ext, ◌∙◌, Bool, true, false, some, [], ◌∷◌, ◌==◌, Addr, null,
  arith, has, Distinct, update, ◌++◌, Bool-cases, inl, inr,
}
use rpiosv.Interrupts.Level.{enabled, set_interrupt_level}
use rpiosv.Memory.{Machine, salloc}
use rpiosv.Queue.Family.{Contents, Free}
use rpiosv.Kernel.{Kernel, context_switch}
use rpiosv.Scheduler.{interrupt_level, process_start, process_stop, schedule_next_process}
use rpiosv.Scheduler.Staying.{started-Free}
use rpiosv.Scheduler.Turns.{
  quiet, turn, later, Ready, Running, Switched, popped, schedule_next_process-Running,
}
use rpiosv.Process.Enter.{forked, process_fork-forked, forked-Running}
use rpiosv.Process.{
  Code, init_queues, init_semaphores, initalize_idle_process, process_fork, process_size, stacksize,
  process_system_initialize, set_timer_handler,
}
use rpiosv.Process.Start.{nothing, idling}

-- Two processes put on an empty queue, and the first taken off.
abbrev both : (run a b : Addr) → Contents
both run a b = update (update nothing run (a ∷ [])) run (update nothing run (a ∷ []) run ++ b ∷ [])

both-at : (run a b : Addr) → both run a b run ≡ a ∷ b ∷ []
both-at run a b = let here : (run == run) ≡ true = ground arith in rw here

both-later :
    (run a b : Addr)
    → update (both run a b) run (later (both run a b run)) ≡ update nothing run (b ∷ [])
both-later run a b =
    fun_ext
      λ q. elim (Bool-cases (q == run)) [ inl h ↦ rw (h, both-at run a b) refl | inr h ↦ rw h refl ]

-- The handler of the timer does not matter to the queues.
handling :
    (h : Addr) {live : Addr → Bool} {k : Kernel} {c : Contents}
    → Ready live k c
    → Ready live (record k { timer_handler = h }) c
handling h r = record {
  queues = r.queues;
  run_live = r.run_live;
  idle_real = r.idle_real;
  idle_home = r.idle_home;
  idle_node = r.idle_node;
}

-- What runs once the processes are made.
abbrev pub launched : Code → Kernel → Kernel
launched code k = process_stop (interrupt_level enabled (set_timer_handler code.clock_handler k))

pub process_system_initialize-launched :
    (code : Code) (mainproc mainarg : ℕ) (k k1 k2 k3 k4 k5 : Kernel) (reaper main : Addr)
    → init_queues k ≡ some k1
    → init_semaphores k1 ≡ some k2
    → initalize_idle_process k2 ≡ some k3
    → process_fork code.cleanup code.reaper_process null
        (record k3 { current_context_pcb = k3.idle_process })
      ≡ some (reaper, k4)
    → process_fork code.cleanup mainproc mainarg k4 ≡ some (main, k5)
    → process_system_initialize code mainproc mainarg k ≡ some (launched code k5)
unfolding process_system_initialize
process_system_initialize-launched code mainproc mainarg k k1 k2 k3 k4 k5 reaper main e1 e2 e3 e4
      e5 =
    rw (process_system_initialize, e1, e2, e3, e4, e5) refl

-- What creation and scheduling leave alone.
pub record Kept (k k' : Kernel) : Type 0 where
  pub waits : k'.wait_queue ≡ k.wait_queue
  pub counts : k'.count ≡ k.count
  pub reaping : k'.dead_queue_semaphore ≡ k.dead_queue_semaphore
  pub running : k'.run_queue ≡ k.run_queue
  pub dying : k'.dead_queue ≡ k.dead_queue
  pub ticking : k'.tick_queue ≡ k.tick_queue

pub Kept-trans : {k k' k2 : Kernel} → Kept k k' → Kept k' k2 → Kept k k2
Kept-trans a b = record {
  waits = b.waits ∙ a.waits;
  counts = b.counts ∙ a.counts;
  reaping = b.reaping ∙ a.reaping;
  running = b.running ∙ a.running;
  dying = b.dying ∙ a.dying;
  ticking = b.ticking ∙ a.ticking;
}

pub idling-Kept :
    (k : Kernel) (m : Machine) (idle : Addr)
    → Kept k (record (idling k m idle) { current_context_pcb = idle })
idling-Kept k m idle = record {
  waits = refl;
  counts = refl;
  reaping = refl;
  running = refl;
  dying = refl;
  ticking = refl;
}

forked-Kept :
    (cleanup proc arg p base : ℕ) (m m' : Machine) (k : Kernel)
    → Kept k (forked cleanup proc arg p base m m' k)
unfolding process_start
forked-Kept cleanup proc arg p base m m' k = record {
  waits = refl;
  counts = refl;
  reaping = refl;
  running = refl;
  dying = refl;
  ticking = refl;
}

launched-Kept :
    (code : Code) (k : Kernel)
    → Kept k (launched code k)
      × ((launched code k).timer_handler ≡ code.clock_handler)
      × ((launched code k).stackbase ≡ k.stackbase)
unfolding process_stop schedule_next_process set_timer_handler context_switch
launched-Kept code k = (
  record {
    waits = refl;
    counts = refl;
    reaping = refl;
    running = refl;
    dying = refl;
    ticking = refl;
  },
  refl,
  refl,
)

module _ {live : Addr → Bool} {k : Kernel} (run : Running live k nothing) (code : Code)
    (mainproc mainarg : ℕ) (reaper base1 main base2 : Addr) (m1 m2 m3 m4 : Machine) where
  abbrev pub after_reaper : Kernel
  after_reaper = forked code.cleanup code.reaper_process null reaper base1 m1 m2 k

  abbrev pub after_main : Kernel
  after_main = forked code.cleanup mainproc mainarg main base2 m3 m4 after_reaper

  -- What the two forks return, and what runs after them.
  pub record Launched : Type 0 where
    pub forked1 : process_fork code.cleanup code.reaper_process null k ≡ some (reaper, after_reaper)
    pub forked2 : process_fork code.cleanup mainproc mainarg after_reaper ≡ some (main, after_main)
    pub runs :
        Running live
          (launched code after_main)
          (update nothing (launched code after_main).run_queue (main ∷ []))
    pub current : (launched code after_main).current_context_pcb ≡ reaper
    pub irq : (launched code after_main).machine.irq ≡ enabled
    pub kept : Kept k (launched code after_main)
    pub handler : (launched code after_main).timer_handler ≡ code.clock_handler
    pub stack1 : (launched code after_main).stackbase reaper ≡ base1
    pub stack2 : (launched code after_main).stackbase main ≡ base2
    pub switched : Switched k.current_context_pcb reaper after_main (launched code after_main)

  pub launch :
      salloc process_size k.machine ≡ some (reaper, m1)
      → salloc stacksize m1 ≡ some (base1, m2)
      → salloc process_size m2 ≡ some (main, m3)
      → salloc stacksize m3 ≡ some (base2, m4)
      → has null (reaper ∷ main ∷ []) ≡ false
      → Distinct (main ∷ reaper ∷ k.current_context_pcb ∷ [])
      → Free live k.store nothing reaper
      → Free live k.store nothing main
      → Launched
  unfolding process_start process_stop schedule_next_process set_timer_handler
  launch e1 e2 e3 e4 real ns free_reaper free_main =
      let (forked1, machine) =
        process_fork-forked code.cleanup code.reaper_process null k reaper base1 m1 m2 e1 e2 in
      let run4 =
        forked-Running run code.cleanup code.reaper_process null reaper base1 m1 m2
          (ground (arith, real)) (ground (arith, ns.1.0)) free_reaper in
      let e3' : salloc process_size after_reaper.machine ≡ some (main, m3) = rw machine e3 in
      let run5 =
        forked-Running run4 code.cleanup mainproc mainarg main base2 m3 m4 (ground (arith, real))
          (ground (arith, ns.0))
          (started-Free k nothing reaper main run.ready.run_live (ground (arith, ns.0))
            free_main) in
      let (next, switched, run6, irq) = schedule_next_process-Running (
        quiet (set_interrupt_level enabled after_main.machine.irq)
          (handling code.clock_handler run5.ready)) in
      let (last, handler, stacks) = launched-Kept code after_main in
      let kept =
        Kept-trans
          (Kept-trans (forked-Kept code.cleanup code.reaper_process null reaper base1 m1 m2 k)
            (forked-Kept code.cleanup mainproc mainarg main base2 m3 m4 after_reaper))
          last in
      record {
        forked1 = forked1;
        forked2 =
            (process_fork-forked code.cleanup mainproc mainarg after_reaper main base2 m3 m4 e3'
              e4).0;
        runs =
            subst (λ c. Running live (launched code after_main) c)
              (both-later k.run_queue reaper main
                ∙ ap (λ q. update nothing q (main ∷ [])) (sym kept.running))
              run6;
        current = next ∙ ap (turn k.idle_process) (both-at k.run_queue reaper main);
        irq = irq;
        kept = kept;
        handler = handler;
        stack1 = rw stacks (ground (arith, ns.0));
        stack2 = rw stacks (ground arith);
        switched = record {
          tops = switched.tops;
          stacks = switched.stacks;
          resumed =
              subst
                (λ n. (launched code after_main).registers ≡ popped n (launched code after_main))
                (ap (turn k.idle_process) (both-at k.run_queue reaper main)) switched.resumed;
        };
      }
