-- ===== src/Process/System.antt =====
-- What `process_system_initialize` sets up on a heap that has room.
use rpiosv.Base.{
  ℕ, ◌≤◌, ◌≡◌, ◌≢◌, ap, sym, ◌∙◌, Bool, true, some, List, [], ◌∷◌, Addr, null, arith, has, Distinct,
  update,
}
use rpiosv.Base.Int.{pos}
use rpiosv.Interrupts.Level.{enabled}
use rpiosv.Memory.{Machine}
use rpiosv.Queue.{Store}
use rpiosv.Kernel.{Kernel, saved_size}
use rpiosv.Scheduler.Turns.{Running, popped}
use rpiosv.Semaphore.Waiting.{HasQueue}
use rpiosv.Process.Switch.{update-at}
use rpiosv.Process.Entered.{entering, entered}
use rpiosv.Process.{Code, process_system_initialize}
use rpiosv.Process.Start.{
  nothing, queued, counted, idling, init_queues-Empties, init_semaphores-Empties, init_idle-Running,
}
use rpiosv.Process.Launch.{
  process_system_initialize-launched, Kept, Kept-trans, idling-Kept, launch,
}
use rpiosv.Process.Parts.{sizes, has-fourth, parts, stacks}
use rpiosv.Memory.Blocks.{Block}
use rpiosv.Memory.Take.{IsHeap}
use rpiosv.Memory.Room.{roomy}
use rpiosv.Memory.Grants.{Granted, room_for, salloc-Granted}

-- The queues that the kernel works with, none of which holds a process but the run queue.
pub record System (live : Addr → Bool) (k : Kernel) : Type 0 where
  pub reaping : HasQueue live k k.dead_queue_semaphore
  pub none_dead : k.count k.dead_queue_semaphore ≡ pos 0
  pub dead_live : live k.dead_queue ≡ true
  pub tick_live : live k.tick_queue ≡ true
  pub apart :
      Distinct
        (k.wait_queue k.dead_queue_semaphore ∷ k.tick_queue ∷ k.dead_queue ∷ k.run_queue ∷ [])

-- The first half leaves such queues, and the second keeps them.
Kept-System :
    (k k' : Kernel) (m m' : Machine) (s s' : Store) (run dead tick sem wait : Addr)
    → Kept (counted (queued k m s run dead tick) m' s' sem wait) k'
    → Distinct (wait ∷ tick ∷ dead ∷ run ∷ [])
    → System (λ q. has q (wait ∷ tick ∷ dead ∷ run ∷ [])) k'
Kept-System k k' m m' s s' run dead tick sem wait kept ne =
    let own : k'.wait_queue k'.dead_queue_semaphore ≡ wait =
      rw (kept.waits, kept.reaping) (update-at k.wait_queue sem wait) in
    record {
      reaping = record {
        wait_live = rw own (ground arith);
        wait_own = rw (own, kept.running) (ground (arith, ne.0));
      };
      none_dead = rw (kept.counts, kept.reaping) (update-at k.count sem (pos 0));
      dead_live = rw kept.dying (ground arith);
      tick_live = rw kept.ticking (ground arith);
      apart = rw (own, kept.ticking, kept.dying, kept.running) ne;
    }

-- On a well-formed heap with a free block of `room_for sizes` bytes, that lies above the stack on
-- which the kernel started, where that has room for one saved state, `process_system_initialize`
-- returns, with interrupts enabled. The processor has entered `reaper_process`, with NULL in r0, an
-- empty stack, and `cleanup` as the return address; and what stands on the stack of the main process
-- enters `mainproc` with `mainarg` likewise. The run queue holds the main process alone, and the
-- other queues are empty; the queues are four different ones; nobody is dead, and the semaphore of
-- the dead has a queue of its own; and the clock is the handler of the timer.
pub process_system_initialize-Running :
    (code : Code) (mainproc mainarg lo hi : ℕ) (k : Kernel) (bs : List Block)
    → IsHeap lo hi k.machine.memory bs
    → roomy (room_for sizes) bs ≡ true
    → saved_size ≤ k.registers.sp
    → k.registers.sp ≤ lo
    → (k' : Kernel) × (process_system_initialize code mainproc mainarg k ≡ some k')
      × (live : Addr → Bool) × (reaper : Addr) × (main : Addr) × (k'.registers
          ≡ entering code.reaper_process null code.cleanup (k'.stackbase reaper))
      × (popped main k' ≡ entering mainproc mainarg code.cleanup (k'.stackbase main))
      × Running live k' (update nothing k'.run_queue (main ∷ []))
      × (k'.current_context_pcb ≡ reaper)
      × (reaper ≢ main)
      × (k'.machine.irq ≡ enabled)
      × System live k'
      × (k'.timer_handler ≡ code.clock_handler)
unfolding Granted
process_system_initialize-Running code mainproc mainarg lo hi k bs is room low below =
    let (
      run,
      m1,
      e1,
      (
        s1,
        m2,
        e2,
        (
          dead,
          m3,
          e3,
          (
            s2,
            m4,
            e4,
            (
              tick,
              m5,
              e5,
              (
                s3,
                m6,
                e6,
                (
                  sem,
                  m7,
                  e7,
                  (
                    wait,
                    m8,
                    e8,
                    (
                      s4,
                      m9,
                      e9,
                      (
                        idle,
                        m10,
                        e10,
                        (
                          reaper,
                          m11,
                          e11,
                          (base1, m12, e12, (main, m13, e13, (base2, m14, e14, fresh))),
                        ),
                      ),
                    ),
                  ),
                ),
              ),
            ),
          ),
        ),
      ),
    ) =
      salloc-Granted lo hi sizes k.machine bs is room in
    let parted =
      parts run s1 dead s2 tick s3 sem wait s4 idle reaper base1 main base2 fresh.distinct
        fresh.real in
    let qs = parted.queues in
    let ns = parted.sentinals in
    let (t, init1, empty1) =
      init_queues-Empties k m1 m2 m3 m4 m5 m6 run s1 dead s2 tick s3 qs.1 ns.1 parted.real_queues e1
        e2 e3 e4 e5 e6 in
    let k1 = queued k m6 t run dead tick in
    let (u, init2, empty2) =
      init_semaphores-Empties k1 empty1 m7 m8 m9 sem wait s4 e7 e8 e9 parted.real_wait
        parted.real_s4 qs.0 ns.0 in
    let k2 = counted k1 m9 u sem wait in
    let (init3, run3) =
      init_idle-Running k2 empty2 m10 m11 m12 idle e10 parted.real_idle parted.idle_new
        (has-fourth wait tick dead run) in
    let l =
      launch run3 code mainproc mainarg reaper base1 main base2 m11 m12 m13 m14 e11 e12 e13 e14
        parted.real_processes parted.processes (empty2.free reaper parted.reaper_new)
        (empty2.free main parted.main_new) in
    let (one, two) =
      entered run3 code mainproc mainarg reaper base1 main base2 m11 m12 m13 m14 _
        (stacks k.registers.sp lo hi run s1 dead s2 tick s3 sem wait s4 idle reaper base1 main base2
          low below is.high fresh.within fresh.distinct)
        l.switched parted.reaper_other parted.main_other parted.two in
    let kept = Kept-trans (idling-Kept k2 m10 idle) l.kept in
    (
      _,
      process_system_initialize-launched code mainproc mainarg k k1 k2 (idling k2 m10 idle) _ _
          reaper main init1 init2 init3 l.forked1 l.forked2,
      (λ q. has q (wait ∷ tick ∷ dead ∷ run ∷ [])),
      reaper,
      main,
      one ∙ ap (entering code.reaper_process null code.cleanup) (sym l.stack1),
      two ∙ ap (entering mainproc mainarg code.cleanup) (sym l.stack2),
      l.runs,
      l.current,
      parted.two,
      l.irq,
      Kept-System k _ m6 m9 t u run dead tick sem wait kept qs,
      l.handler,
    )
