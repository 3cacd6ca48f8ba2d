-- ===== src/Process/Start.antt =====
-- The first half of `process_system_initialize`: the queues, the semaphore and the idle process.
use rpiosv.Base.{
  ◌+◌, ◌≡◌, ◌≢◌, refl, subst, fun_ext, true, false, some, List, [], ◌∷◌, Addr, null, arith, has,
  Distinct, update,
}
use rpiosv.Base.Int.{pos}
use rpiosv.Memory.{Machine, u32, salloc}
use rpiosv.Queue.{Store, queue_new, queue_size, node_size, set_next, set_prev}
use rpiosv.Queue.Family.{Contents, Queues, Free}
use rpiosv.Queue.Grow.{queue_new-Queues, linked-Queues, Grown-Free}
use rpiosv.Kernel.{Kernel}
use rpiosv.Scheduler.Turns.{Running}
use rpiosv.Semaphore.{semaphore_create, semaphore_size}
use rpiosv.Process.{init_queues, init_semaphores, initalize_idle_process, process_size}

abbrev pub nothing : Contents
nothing q = []

-- The queues `qs` are empty, and `sens` are their sentinels.
pub record Empties (qs : List Addr) (s : Store) (sens : List Addr) : Type 0 where
  pub queues : Queues (λ q. has q qs) s nothing
  pub free : (n : Addr) → has n sens ≡ false → Free (λ q. has q qs) s nothing n

no_queues : (s : Store) → Empties [] s []
no_queues s = record {
  queues = record {
    each = λ q on. absurd (ground (arith, on));
    apart = λ q r on onr. absurd (ground (arith, on));
  };
  free = λ n h q on. absurd (ground (arith, on));
}

module _ {qs : List Addr} {s : Store} {sens : List Addr} (empty : Empties qs s sens)
    (m m1 m2 : Machine) (q sen : Addr) where
  grown-Empties :
      salloc queue_size m ≡ some (q, m1)
      → salloc node_size m1 ≡ some (sen, m2)
      → q ≢ null
      → sen ≢ null
      → has q qs ≡ false
      → has sen sens ≡ false
      → (t : Store) × (queue_new m s ≡ some (q, m2, t)) × Empties (q ∷ qs) t (sen ∷ sens)
  grown-Empties e f q_real sen_real fresh out =
      let (t, new, g) =
        queue_new-Queues empty.queues m m1 m2 q sen e f q_real sen_real fresh (empty.free sen out)
          refl in
      let same : update (λ r. has r qs) q true ≡ (λ r. has r (q ∷ qs)) =
        fun_ext λ r. ground arith in
      (
        t,
        new,
        record {
          queues = subst (λ l. Queues l t nothing) same g.queues;
          free = λ n h.
              subst (λ l. Free l t nothing n) same
                (Grown-Free empty.queues g refl n (ground (arith, h))
                  (empty.free n (ground (arith, h))));
        },
      )

-- Kernels made by the steps of `process_system_initialize`.
abbrev pub queued : Kernel → Machine → Store → (run dead tick : Addr) → Kernel
queued k m s run dead tick = record k {
  machine = m;
  store = s;
  run_queue = run;
  dead_queue = dead;
  tick_queue = tick;
  ticks = 0;
}

abbrev pub counted : Kernel → Machine → Store → (sem wait : Addr) → Kernel
counted k m s sem wait = record k {
  machine = m;
  store = s;
  wait_queue = update k.wait_queue sem wait;
  count = update k.count sem (pos 0);
  dead_queue_semaphore = sem;
}

abbrev pub idling : Kernel → Machine → (idle : Addr) → Kernel
idling k m idle = record k {
  machine = m;
  idle_process = idle;
  store = set_next idle null (set_prev idle null k.store);
  stackbase = update k.stackbase idle null;
  pid = update k.pid idle k.next_pid;
  next_pid = u32 (k.next_pid + 1);
  current_stack_pointer = update k.current_stack_pointer idle null;
}

module _ (k : Kernel) (m1 m2 m3 m4 m5 m6 : Machine) (run s1 dead s2 tick s3 : Addr)
    (qs : Distinct (tick ∷ dead ∷ run ∷ [])) (sens : Distinct (s3 ∷ s2 ∷ s1 ∷ []))
    (real : has null (run ∷ s1 ∷ dead ∷ s2 ∷ tick ∷ s3 ∷ []) ≡ false) where
  pub init_queues-Empties :
      salloc queue_size k.machine ≡ some (run, m1)
      → salloc node_size m1 ≡ some (s1, m2)
      → salloc queue_size m2 ≡ some (dead, m3)
      → salloc node_size m3 ≡ some (s2, m4)
      → salloc queue_size m4 ≡ some (tick, m5)
      → salloc node_size m5 ≡ some (s3, m6)
      → (t : Store) × (init_queues k ≡ some (queued k m6 t run dead tick))
        × Empties (tick ∷ dead ∷ run ∷ []) t (s3 ∷ s2 ∷ s1 ∷ [])
  unfolding init_queues
  init_queues-Empties e1 e2 e3 e4 e5 e6 =
      let (t1, new1, em1) =
        grown-Empties (no_queues k.store) k.machine m1 m2 run s1 e1 e2 (ground (arith, real))
          (ground (arith, real)) refl refl in
      let (t2, new2, em2) =
        grown-Empties em1 m2 m3 m4 dead s2 e3 e4 (ground (arith, real)) (ground (arith, real))
          qs.1.0 sens.1.0 in
      let (t3, new3, em3) =
        grown-Empties em2 m4 m5 m6 tick s3 e5 e6 (ground (arith, real)) (ground (arith, real)) qs.0
          sens.0 in
      (t3, rw (init_queues, new1, new2, new3) refl, em3)

module _ {qs : List Addr} {sens : List Addr} (k : Kernel) (empty : Empties qs k.store sens)
    (m1 m2 m3 : Machine) where
  pub init_semaphores-Empties :
      (sem wait s4 : Addr)
      → salloc semaphore_size k.machine ≡ some (sem, m1)
      → salloc queue_size m1 ≡ some (wait, m2)
      → salloc node_size m2 ≡ some (s4, m3)
      → wait ≢ null
      → s4 ≢ null
      → has wait qs ≡ false
      → has s4 sens ≡ false
      → (t : Store) × (init_semaphores k ≡ some (counted k m3 t sem wait))
        × Empties (wait ∷ qs) t (s4 ∷ sens)
  unfolding init_semaphores semaphore_create
  init_semaphores-Empties sem wait s4 e1 e2 e3 real real' fresh out =
      let (t, new, em) = grown-Empties empty m1 m2 m3 wait s4 e2 e3 real real' fresh out in
      (t, rw (init_semaphores, semaphore_create, e1, new) refl, em)

  -- The idle process, which runs.
  pub init_idle-Running :
      (idle : Addr)
      → salloc process_size k.machine ≡ some (idle, m1)
      → idle ≢ null
      → has idle sens ≡ false
      → has k.run_queue qs ≡ true
      → (initalize_idle_process k ≡ some (idling k m1 idle))
        × Running (λ q. has q qs) (record (idling k m1 idle) { current_context_pcb = idle }) nothing
  unfolding initalize_idle_process
  init_idle-Running idle e real out on =
      let free = empty.free idle out in
      (
        rw (initalize_idle_process, e) refl,
        record {
          ready = record {
            queues = linked-Queues empty.queues idle null null free;
            run_live = on;
            idle_real = real;
            idle_home = λ q onq ne. free q onq;
            idle_node = ground (arith, free k.run_queue on);
          };
          current_free = free;
          current_real = real;
        },
      )
