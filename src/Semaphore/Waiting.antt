-- ===== src/Semaphore/Waiting.antt =====
-- `semaphore_P` and `semaphore_V` on the queues: who waits, who is woken, and the count.
use rpiosv.Base.{
  zero, suc, ◌≡◌, ◌≢◌, refl, ap, sym, subst, ◌∙◌, true, false, List, [], ◌∷◌, ◌++◌, Bool, ◌==◌,
  Addr, arith, length, length-append, update,
}
use rpiosv.Base.Int.{ℤ, pos, negsuc, is_neg, is_pos, succ_ℤ, pred_ℤ}
use rpiosv.Interrupts.Level.{
  disabled, set_interrupt_level, interrupts_enabled, set_interrupt_level-restore,
  set_interrupt_level_lem,
}
use rpiosv.Queue.{queue_dequeue, queue_length}
use rpiosv.Queue.Family.{Contents}
use rpiosv.Kernel.{Kernel, context_switch, set_store}
use rpiosv.Scheduler.{process_start, process_stop, get_current_process}
use rpiosv.Scheduler.Blocking.{blocked-Ready, dequeued-Taken}
use rpiosv.Scheduler.Turns.{
  quiet, Ready, Running, turn, later, nonempty, length-queue, schedule_next_process-turn,
}
use rpiosv.Scheduler.RoundRobin.{started, process_start-Ready}
use rpiosv.Semaphore.{semaphore_P, semaphore_V, wake}

-- A count that is not negative means that nobody waits; else it is minus the number that wait.
abbrev pub Balanced : ℤ → List Addr → Type 0
Balanced (pos n) ws = ws ≡ []
Balanced (negsuc n) ws = length ws ≡ suc n

-- `sem` has a queue of its own.
pub record HasQueue (live : Addr → Bool) (k : Kernel) (sem : Addr) : Type 0 where
  pub wait_live : live (k.wait_queue sem) ≡ true
  pub wait_own : k.wait_queue sem ≢ k.run_queue

-- The contents with the running process put last on the wait queue of `sem`.
abbrev pub blocked : Kernel → Contents → Addr → Contents
blocked k c sem = update c (k.wait_queue sem) (c (k.wait_queue sem) ++ k.current_context_pcb ∷ [])

-- Those contents once the next process has left the run queue.
abbrev pub handed_over : Kernel → Contents → Addr → Contents
handed_over k c sem = update (blocked k c sem) k.run_queue (later (c k.run_queue))

Balanced-pred :
    (n : ℤ) (ws : List Addr) (x : Addr)
    → Balanced n ws
    → is_neg (pred_ℤ n) ≡ true
    → Balanced (pred_ℤ n) (ws ++ x ∷ [])
Balanced-pred (pos zero) ws x b h = rw b
Balanced-pred (pos (suc n)) ws x b h = cc
Balanced-pred (negsuc n) ws x b h = omega (arith, length-append ws (x ∷ []), b)

pub recount :
    (n : Addr → ℤ) {live : Addr → Bool} {k : Kernel} {c : Contents}
    → Ready live k c
    → Ready live (record k { count = n }) c
recount n r = record {
  queues = r.queues;
  run_live = r.run_live;
  idle_real = r.idle_real;
  idle_home = r.idle_home;
  idle_node = r.idle_node;
}

module _ {live : Addr → Bool} {k : Kernel} {c : Contents} (run : Running live k c) (sem : Addr)
    (own : HasQueue live k sem) where
  -- `semaphore_P` on a count that would become negative: the running process goes last on the wait
  -- queue, the first of the run queue (or the idle process) runs, and the count is still balanced
  -- against the wait queue. The idle process must not call it.
  pub semaphore_P-blocks :
      k.current_context_pcb ≢ k.idle_process
      → is_neg (pred_ℤ (k.count sem)) ≡ true
      → Balanced (k.count sem) (c (k.wait_queue sem))
      → ((semaphore_P sem k).0 ≡ false)
        × ((semaphore_P sem k).1.current_context_pcb ≡ turn k.idle_process (c k.run_queue))
        × Running live (semaphore_P sem k).1 (handed_over k c sem)
        × Balanced ((semaphore_P sem k).1.count sem) (handed_over k c sem (k.wait_queue sem))
  unfolding semaphore_P process_stop context_switch get_current_process
  semaphore_P-blocks busy neg bal =
      let here : (sem == sem) ≡ true = ground arith in
      let ready = blocked-Ready run (k.wait_queue sem) own.wait_live own.wait_own busy in
      let (next, after, _) = schedule_next_process-turn (
        recount (update k.count sem (pred_ℤ (k.count sem)))
          (quiet (set_interrupt_level disabled k.machine.irq) ready)) in
      let apart : (k.run_queue == k.wait_queue sem) ≡ false = ground (arith, own.wait_own) in
      let apart' : (k.wait_queue sem == k.run_queue) ≡ false = ground (arith, own.wait_own) in
      let self : (k.wait_queue sem == k.wait_queue sem) ≡ true = ground arith in
      let same : blocked k c sem k.run_queue ≡ c k.run_queue = rw apart in
      rw (here, neg)
        (
          refl,
          next ∙ ap (turn k.idle_process) same,
          rw same at after,
          rw (here, apart', self)
              (Balanced-pred (k.count sem) (c (k.wait_queue sem)) k.current_context_pcb bal neg),
        )

  -- `semaphore_P` on a positive count returns, with the count less by one and all else as it was.
  pub semaphore_P-passes :
      is_neg (pred_ℤ (k.count sem)) ≡ false
      → semaphore_P sem k ≡ (true, record k { count = update k.count sem (pred_ℤ (k.count sem)) })
  unfolding semaphore_P
  semaphore_P-passes h =
      let here : (sem == sem) ≡ true = ground arith in
      rw (here, h, set_interrupt_level-restore disabled k.machine.irq)

Balanced-nil : (n : ℤ) → Balanced n [] → Balanced (succ_ℤ n) []
Balanced-nil (pos n) b = refl
Balanced-nil (negsuc n) b = absurd (omega (arith, b))

Balanced-cons : (n : ℤ) (x : Addr) (xs : List Addr) → Balanced n (x ∷ xs) → Balanced (succ_ℤ n) xs
Balanced-cons (pos n) x xs b = cc
Balanced-cons (negsuc zero) x [] b = refl
Balanced-cons (negsuc zero) x (y ∷ ys) b = absurd (omega (arith, b))
Balanced-cons (negsuc (suc n)) x xs b = omega (arith, b)

module _ {live : Addr → Bool} {k : Kernel} {c : Contents} (r : Ready live k c) (sem : Addr)
    (own : HasQueue live k sem) where
  -- `semaphore_V` when nobody waits: the count is one more, and all else is as it was.
  pub semaphore_V-nil :
      c (k.wait_queue sem) ≡ []
      → semaphore_V sem k ≡ record k { count = update k.count sem (succ_ℤ (k.count sem)) }
  unfolding semaphore_V wake
  semaphore_V-nil e =
      let empty : is_pos (queue_length (k.wait_queue sem) k.store) ≡ false =
        length-queue live k.store c (k.wait_queue sem) r.queues own.wait_live ∙ ap nonempty e in
      rw (empty, set_interrupt_level-restore disabled k.machine.irq)

  -- `wake` when `x` waits first.
  wake-cons :
      (x : Addr) (xs : List Addr)
      → c (k.wait_queue sem) ≡ x ∷ xs
      → wake sem k ≡ process_start x (set_store (queue_dequeue (k.wait_queue sem) true k.store).1 k)
  unfolding wake
  wake-cons x xs e =
      let some_wait : is_pos (queue_length (k.wait_queue sem) k.store) ≡ true =
        length-queue live k.store c (k.wait_queue sem) r.queues own.wait_live ∙ ap nonempty e in
      let reply = (dequeued-Taken r (k.wait_queue sem) own.wait_live own.wait_own x xs e).0 in
      rw (some_wait, reply)

  wake-Ready :
      (x : Addr) (xs : List Addr)
      → c (k.wait_queue sem) ≡ x ∷ xs
      → Ready live (wake sem k) (started k (update c (k.wait_queue sem) xs) x)
        × ((wake sem k).count ≡ k.count)
        × ((wake sem k).current_context_pcb ≡ k.current_context_pcb)
  wake-Ready x xs e =
      let t = (dequeued-Taken r (k.wait_queue sem) own.wait_live own.wait_own x xs e).1 in
      rw (wake-cons x xs e) (
        (process_start-Ready t.ready x t.real t.free).0,
        (unfold process_start in refl),
        (unfold process_start in refl),
      )

module _ {live : Addr → Bool} {k : Kernel} {c : Contents} (r : Ready live k c) (sem : Addr)
    (own : HasQueue live k sem) where
  -- `semaphore_V` when `x` waits first: `x` moves to the end of the run queue, the process that
  -- runs and the interrupt level stay, and a balanced count stays balanced.
  pub semaphore_V-wakes :
      (x : Addr) (xs : List Addr)
      → c (k.wait_queue sem) ≡ x ∷ xs
      → Balanced (k.count sem) (x ∷ xs)
      → Ready live (semaphore_V sem k) (started k (update c (k.wait_queue sem) xs) x)
        × Balanced ((semaphore_V sem k).count sem) xs
        × ((semaphore_V sem k).current_context_pcb ≡ k.current_context_pcb)
        × ((semaphore_V sem k).machine.irq ≡ k.machine.irq)
  unfolding semaphore_V
  semaphore_V-wakes x xs e bal =
      let l = set_interrupt_level disabled k.machine.irq in
      let n = update k.count sem (succ_ℤ (k.count sem)) in
      let k2 : Kernel = record k { machine = record k.machine { irq = l }; count = n } in
      let ready : Ready live k2 c = recount n (quiet l r) in
      let own' : HasQueue live k2 sem = record {
        wait_live = own.wait_live;
        wait_own = own.wait_own;
      } in
      let (after, count, cur) = wake-Ready ready sem own' x xs e in
      let self : n sem ≡ succ_ℤ (k.count sem) = ground arith in
      (
        quiet _ after,
        subst (λ (m : ℤ). Balanced m xs) (sym (ap (λ (f : Addr → ℤ). f sem) count ∙ self))
            (Balanced-cons (k.count sem) x xs bal),
        cur,
        set_interrupt_level_lem (interrupts_enabled k.machine.irq) _
            ∙ unfold interrupts_enabled in refl,
      )

-- `semaphore_V` changes neither where the run queue stands nor which process is idle.
pub semaphore_V-run_queue : (sem : Addr) (k : Kernel) → (semaphore_V sem k).run_queue ≡ k.run_queue
unfolding semaphore_V wake process_start
semaphore_V-run_queue sem k = ground arith

pub semaphore_V-idle_process :
    (sem : Addr) (k : Kernel) → (semaphore_V sem k).idle_process ≡ k.idle_process
unfolding semaphore_V wake process_start
semaphore_V-idle_process sem k = ground arith
