-- ===== src/Scheduler/RoundRobin.antt =====
-- `process_start` and `process_yield` on the queues: the ready processes take turns.
use rpiosv.Base.{
  ℕ, zero, suc, ◌≡◌, ◌≢◌, refl, ap, subst, fun_ext, ◌∙◌, false, List, [], ◌∷◌, ◌++◌, append_assoc,
  Bool, ◌==◌, Addr, null, arith, length, update,
}
use mathlib.Core.Path.{ap₂}
use rpiosv.Interrupts.Level.{disabled, enabled, set_interrupt_level-restore}
use rpiosv.Queue.Family.{Contents, Free, queue_append-Queues}
use rpiosv.Kernel.{Kernel, context_switch}
use rpiosv.Scheduler.{process_start, process_yield}
use rpiosv.Scheduler.Turns.{Ready, Running, turn, later, schedule_next_process-turn}

-- The contents with `t` put last on the run queue.
abbrev pub started : Kernel → Contents → Addr → Contents
started k c t = update c k.run_queue (c k.run_queue ++ t ∷ [])

module _ {live : Addr → Bool} {k : Kernel} {c : Contents} (r : Ready live k c) where
  -- `process_start` of a process that is on no queue puts it last on the run queue, and changes
  -- neither the other queues nor the interrupt level nor who runs.
  pub process_start-Ready :
      (t : Addr)
      → t ≢ null
      → Free live k.store c t
      → Ready live (process_start t k) (started k c t)
        × ((process_start t k).machine.irq ≡ k.machine.irq)
        × ((process_start t k).current_context_pcb ≡ k.current_context_pcb)
  unfolding process_start
  process_start-Ready t real free =
      let (queues, same) = queue_append-Queues r.queues k.run_queue r.run_live t real free in
      (
        record {
          queues = queues;
          run_live = r.run_live;
          idle_real = r.idle_real;
          idle_home = λ q on ne.
              let other : (q == k.run_queue) ≡ false = ground arith in
              rw (other, same q) (r.idle_home q on ne);
          idle_node = rw (same k.run_queue) r.idle_node;
        },
        set_interrupt_level-restore disabled k.machine.irq,
        refl,
      )

pub update-update :
    (c : Contents) (q : Addr) (xs ys : List Addr) → update (update c q xs) q ys ≡ update c q ys
update-update c q xs ys = fun_ext λ r. ground arith

-- The running process, and behind it those that wait on the run queue.
abbrev pub line : Kernel → Contents → List Addr
line k c = k.current_context_pcb ∷ c k.run_queue

-- The line after a yield, as contents.
abbrev pub yielded : Kernel → Contents → Contents
yielded k c = update c k.run_queue (later (c k.run_queue ++ k.current_context_pcb ∷ []))

turn-later :
    (idle n : Addr) (xs : List Addr)
    → turn idle (xs ++ n ∷ []) ∷ later (xs ++ n ∷ []) ≡ xs ++ n ∷ []
turn-later idle n [] = refl
turn-later idle n (x ∷ xs) = refl

module _ {live : Addr → Bool} {k : Kernel} {c : Contents} (run : Running live k c) where
  -- `process_yield` sends the running process to the end of the line: the line rotates by one. No
  -- other queue changes, and interrupts are enabled.
  pub process_yield-Running :
      (line (process_yield k) (yielded k c) ≡ c k.run_queue ++ k.current_context_pcb ∷ [])
      × Running live (process_yield k) (yielded k c)
      × ((process_yield k).machine.irq ≡ enabled)
  unfolding process_yield context_switch
  process_yield-Running =
      let cur = k.current_context_pcb in
      let (ready, _, _) = process_start-Ready run.ready cur run.current_real run.current_free in
      let (next, after, irq) = schedule_next_process-turn ready in
      let here : started k c cur k.run_queue ≡ c k.run_queue ++ cur ∷ [] = ground arith in
      let same : update (started k c cur) k.run_queue (later (started k c cur k.run_queue))
          ≡ yielded k c =
        rw here (
          update-update c k.run_queue (c k.run_queue ++ cur ∷ [])
            (later (c k.run_queue ++ cur ∷ []))) in
      let rest : yielded k c k.run_queue ≡ later (c k.run_queue ++ cur ∷ []) = ground arith in
      let first = next ∙ ap (turn k.idle_process) here in
      (
        ap₂ ◌∷◌ first rest ∙ turn-later k.idle_process cur (c k.run_queue),
        subst (λ c'. Running live (process_yield k) c') same after,
        irq,
      )

-- `n` yields in a row, each by the process that runs then.
pub yields : ℕ → Kernel → Kernel
yields zero k = k
yields (suc n) k = yields n (process_yield k)

head_eq : {x y : Addr} {xs ys : List Addr} → x ∷ xs ≡ y ∷ ys → x ≡ y
head_eq e = cc

tail_eq : {x y : Addr} {xs ys : List Addr} → x ∷ xs ≡ y ∷ ys → xs ≡ ys
tail_eq e = cc

-- No process waits for more than the turns of those before it: a process with `length xs` others
-- before it on the run queue runs after `length xs + 1` yields.
pub yields-turn :
    (xs ys : List Addr) (y : Addr) {live : Addr → Bool} {k : Kernel} {c : Contents}
    → Running live k c
    → c k.run_queue ≡ xs ++ y ∷ ys
    → (yields (suc (length xs)) k).current_context_pcb ≡ y
unfolding yields process_yield context_switch
yields-turn [] ys y {k = k} {c = c} run e =
    let (moved, _, _) = process_yield-Running run in
    head_eq (moved ∙ ap (λ zs. zs ++ k.current_context_pcb ∷ []) e)
yields-turn (x ∷ xs) ys y {k = k} {c = c} run e =
    let (moved, after, _) = process_yield-Running run in
    let moved' : line (process_yield k) (yielded k c)
        ≡ x ∷ (xs ++ y ∷ (ys ++ k.current_context_pcb ∷ [])) =
      moved
      ∙ ap (λ zs. zs ++ k.current_context_pcb ∷ []) e
      ∙ ap (λ zs. x ∷ zs) (append_assoc xs (y ∷ ys) (k.current_context_pcb ∷ [])) in
    yields-turn xs (ys ++ k.current_context_pcb ∷ []) y after (tail_eq moved')
