-- ===== src/Process/End.antt =====
-- The end of a process: `cleanup` hands it to the reaper, which frees its stack and its `pcb`.
use rpiosv.Base.{
  ◌≡◌, ◌≢◌, refl, ap, subst, ◌∙◌, true, Bool, List, [], ◌∷◌, ◌++◌, Addr, arith, update,
}
use rpiosv.Base.Int.{succ_ℤ}
use rpiosv.Interrupts.Level.{disabled, enabled, set_interrupt_level, set_interrupt_level-restore}
use rpiosv.Memory.{sfree}
use rpiosv.Queue.{queue_append}
use rpiosv.Queue.State.{IsQueue, Frame}
use rpiosv.Queue.Remove.{queue_dequeue-IsQueue}
use rpiosv.Queue.Family.{Contents, Free}
use rpiosv.Kernel.{Kernel, set_irq, set_store, context_switch}
use rpiosv.Scheduler.{schedule_next_process, get_current_process}
use rpiosv.Scheduler.Turns.{Ready, Running, turn, later, quiet, schedule_next_process-turn}
use rpiosv.Scheduler.RoundRobin.{started}
use rpiosv.Scheduler.Blocking.{blocked-Ready, dequeued-Taken}
use rpiosv.Semaphore.{semaphore_V}
use rpiosv.Semaphore.Waiting.{
  Balanced, HasQueue, semaphore_V-nil, semaphore_V-wakes, semaphore_V-run_queue,
  semaphore_V-idle_process, recount,
}
use rpiosv.Process.{cleanup, reap}

head_at : (c : Contents) (q : Addr) → update c q (later (c q)) q ≡ later (c q)
head_at c q = ground arith

module _ {live : Addr → Bool} {k : Kernel} {c : Contents} (run : Running live k c)
    (on : live k.dead_queue ≡ true) (own : k.dead_queue ≢ k.run_queue)
    (sem : HasQueue live k k.dead_queue_semaphore)
    (apart : k.wait_queue k.dead_queue_semaphore ≢ k.dead_queue)
    (busy : k.current_context_pcb ≢ k.idle_process) where
  -- The kernel once the process is on the dead queue, and the contents then.
  buried : Kernel
  buried =
      set_store (queue_append k.dead_queue k.current_context_pcb k.store).1
        (set_irq (set_interrupt_level disabled k.machine.irq) k)

  buried_contents : Contents
  buried_contents = update c k.dead_queue (c k.dead_queue ++ k.current_context_pcb ∷ [])

  buried-Ready : Ready live buried buried_contents
  unfolding buried buried_contents
  buried-Ready =
      quiet (set_interrupt_level disabled k.machine.irq)
        (blocked-Ready run k.dead_queue on own busy)

  -- `cleanup` while the reaper waits for a dead process: the caller is last on the dead queue, the
  -- reaper is ready behind the processes that were ready before, and the first of those runs, or the
  -- reaper if there was none.
  pub cleanup-wakes :
      (x : Addr) (xs : List Addr)
      → c (k.wait_queue k.dead_queue_semaphore) ≡ x ∷ xs
      → Balanced (k.count k.dead_queue_semaphore) (x ∷ xs)
      → (cs : Contents) × Running live (cleanup k) cs
        × (cs k.dead_queue ≡ c k.dead_queue ++ k.current_context_pcb ∷ [])
        × (cs k.run_queue ≡ later (c k.run_queue ++ x ∷ []))
        × (cs (k.wait_queue k.dead_queue_semaphore) ≡ xs)
        × ((cleanup k).current_context_pcb ≡ turn k.idle_process (c k.run_queue ++ x ∷ []))
        × ((cleanup k).machine.irq ≡ enabled)
  unfolding cleanup buried buried_contents get_current_process context_switch
  cleanup-wakes x xs e bal =
      let wait = k.wait_queue k.dead_queue_semaphore in
      let e' : buried_contents wait ≡ x ∷ xs = ground (arith, apart, e) in
      let own' : HasQueue live buried k.dead_queue_semaphore = record {
        wait_live = sem.wait_live;
        wait_own = sem.wait_own;
      } in
      let (ready, _, _, _) =
        semaphore_V-wakes buried-Ready k.dead_queue_semaphore own' x xs e' bal in
      let (next, after, irq) = schedule_next_process-turn ready in
      let moved = started buried (update buried_contents wait xs) x in
      let kept = semaphore_V-run_queue k.dead_queue_semaphore buried in
      let idle = semaphore_V-idle_process k.dead_queue_semaphore buried in
      let at_run : moved k.run_queue ≡ c k.run_queue ++ x ∷ [] =
        ground (arith, own, sem.wait_own) in
      let cs = λ (r : Addr). update moved r (later (moved r)) in
      let k2 = semaphore_V k.dead_queue_semaphore buried in
      (
        cs k2.run_queue,
        after,
        ap (λ r. cs r k.dead_queue) kept ∙ ground (arith, own, apart, sem.wait_own),
        ap (λ r. cs r k.run_queue) kept ∙ head_at moved k.run_queue ∙ ap later at_run,
        ap (λ r. cs r wait) kept ∙ ground (arith, own, apart, sem.wait_own),
        next
            ∙ ap (λ i. turn i (moved k2.run_queue)) idle
            ∙ ap (λ r. turn k.idle_process (moved r)) kept
            ∙ ap (turn k.idle_process) at_run,
        irq,
      )

  -- `cleanup` while nobody waits: the count of dead processes rises, and the next process runs.
  pub cleanup-nil :
      c (k.wait_queue k.dead_queue_semaphore) ≡ []
      → (cs : Contents) × Running live (cleanup k) cs
        × (cs k.dead_queue ≡ c k.dead_queue ++ k.current_context_pcb ∷ [])
        × (cs k.run_queue ≡ later (c k.run_queue))
        × ((cleanup k).current_context_pcb ≡ turn k.idle_process (c k.run_queue))
        × ((cleanup k).count k.dead_queue_semaphore ≡ succ_ℤ (k.count k.dead_queue_semaphore))
        × ((cleanup k).machine.irq ≡ enabled)
  unfolding cleanup buried buried_contents get_current_process schedule_next_process context_switch
  cleanup-nil e =
      let wait = k.wait_queue k.dead_queue_semaphore in
      let e' : buried_contents wait ≡ [] = ground (arith, apart, e) in
      let own' : HasQueue live buried k.dead_queue_semaphore = record {
        wait_live = sem.wait_live;
        wait_own = sem.wait_own;
      } in
      let quiet_V = semaphore_V-nil buried-Ready k.dead_queue_semaphore own' e' in
      let (next, after, irq) = schedule_next_process-turn (
        recount (update k.count k.dead_queue_semaphore (succ_ℤ (k.count k.dead_queue_semaphore)))
          buried-Ready) in
      let at_run : buried_contents k.run_queue ≡ c k.run_queue = ground (arith, own) in
      let self : update k.count k.dead_queue_semaphore (succ_ℤ (k.count k.dead_queue_semaphore))
            k.dead_queue_semaphore
          ≡ succ_ℤ (k.count k.dead_queue_semaphore) =
        ground arith in
      rw quiet_V (
        update buried_contents k.run_queue (later (c k.run_queue)),
        rw at_run at after,
        ground (arith, own),
        ground arith,
        rw at_run at next,
        self,
        irq,
      )

module _ {live : Addr → Bool} {k : Kernel} {c : Contents} (r : Ready live k c)
    (on : live k.dead_queue ≡ true) (own : k.dead_queue ≢ k.run_queue) where
  -- A round of the reaper takes the first dead process off the dead queue, and frees its stack and
  -- then its `pcb`. Of the kernel only the links of the other nodes of the dead queue, its length,
  -- and the headers of the heap change.
  pub reap-Ready :
      (x : Addr) (xs : List Addr)
      → c k.dead_queue ≡ x ∷ xs
      → Ready live (reap k) (update c k.dead_queue xs)
        × Free live (reap k).store (update c k.dead_queue xs) x
        × ((reap k).machine.memory ≡ sfree x (sfree (k.stackbase x) k.machine.memory))
        × ((reap k).machine.irq ≡ k.machine.irq)
        × (reap k ≡ record k { store = (reap k).store; machine = (reap k).machine })
        × Frame (k.store.sentinal k.dead_queue ∷ xs) k.dead_queue k.store (reap k).store
  unfolding reap
  reap-Ready x xs e =
      let (reply, taken) = dequeued-Taken r k.dead_queue on own x xs e in
      rw reply (
        record {
          queues = taken.ready.queues;
          run_live = r.run_live;
          idle_real = r.idle_real;
          idle_home = taken.ready.idle_home;
          idle_node = taken.ready.idle_node;
        },
        taken.free,
        refl,
        set_interrupt_level-restore disabled k.machine.irq,
        refl,
        (queue_dequeue-IsQueue true (
            subst (λ ys. IsQueue k.store k.dead_queue (k.store.sentinal k.dead_queue) ys) e
              (r.queues.each k.dead_queue on))).2,
      )
