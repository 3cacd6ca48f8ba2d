-- ===== src/Clock/Handler.antt =====
-- The loop of `clock_handler`: every process that is due goes to the run queue, in the order of the
-- tick queue.
use rpiosv.Base.{
  ℕ, zero, suc, ◌+◌, ◌<◌, ◌≡◌, ◌≢◌, refl, ap, sym, subst, fun_ext, ◌∙◌, true, false, none, some,
  List, [], ◌∷◌, ◌++◌, append_assoc, append-nil, Bool, ◌==◌, Addr, arith, length, length-append,
  has, has-append, update, leb, Bool-cases, Option-cases, inl, inr,
}
use rpiosv.Interrupts.Level.{disabled, set_interrupt_level}
use rpiosv.Memory.{u32}
use rpiosv.Queue.{Store, queue_delete_fast, queue_find}
use rpiosv.Queue.Walk.{find_first, found_reply, queue_find-first}
use rpiosv.Queue.Family.{Contents}
use rpiosv.Kernel.{Kernel, set_irq}
use rpiosv.Scheduler.{process_start}
use rpiosv.Scheduler.Turns.{Running}
use rpiosv.Scheduler.Staying.{append-sentinal, has-cons, has-tail}
use rpiosv.Scheduler.RoundRobin.{process_start-Ready}
use rpiosv.Scheduler.Blocking.{deleted-Taken}
use rpiosv.Clock.{should_awaken, awaken, awaken_loop}
use rpiosv.Clock.Due.{due, rest, due-none, Split, find_first-Split}

-- A process is due when its tick is at most the count of ticks, as a `uint32_t`.
abbrev pub wakes : Kernel → Addr → Bool
wakes k p = leb (k.awaken_tick p) (u32 k.ticks)

-- The contents once those that are due have moved.
abbrev pub woken : Kernel → Contents → Contents
woken k c =
    update (update c k.tick_queue (rest (wakes k) (c k.tick_queue))) k.run_queue
      (c k.run_queue ++ due (wakes k) (c k.tick_queue))

delete_fast-sentinal :
    (q n r : Addr) (s : Store) → (queue_delete_fast q n s).1.sentinal r ≡ s.sentinal r
unfolding queue_delete_fast
delete_fast-sentinal q n r s = ground arith

-- What the loop leaves.
pub record Woken (live : Addr → Bool) (fuel : ℕ) (k : Kernel) (c : Contents) : Type 0 where
  pub result : Kernel
  pub returns : awaken_loop fuel k ≡ some result
  pub running : Running live result (woken k c)
  pub same_current : result.current_context_pcb ≡ k.current_context_pcb
  pub same_irq : result.machine.irq ≡ k.machine.irq
  pub same_run : result.run_queue ≡ k.run_queue
  pub same_tick : result.tick_queue ≡ k.tick_queue
  pub same_ticks : result.ticks ≡ k.ticks
  pub same_awaken : result.awaken_tick ≡ k.awaken_tick

-- One round of the loop, as contents.
abbrev moved : Kernel → Contents → (x : Addr) (xs : List Addr) → Contents
moved k c x xs =
    update (update c k.tick_queue xs) k.run_queue (update c k.tick_queue xs k.run_queue ++ x ∷ [])

moved-woken :
    (k : Kernel) (c : Contents) (x : Addr) (xs : List Addr)
    → k.tick_queue ≢ k.run_queue
    → rest (wakes k) (c k.tick_queue) ≡ rest (wakes k) xs
    → due (wakes k) (c k.tick_queue) ≡ x ∷ due (wakes k) xs
    → woken k (moved k c x xs) ≡ woken k c
moved-woken k c x xs ne same first =
    let at_tick : moved k c x xs k.tick_queue ≡ xs = ground (arith, ne) in
    let at_run : moved k c x xs k.run_queue ≡ c k.run_queue ++ x ∷ [] = ground (arith, ne) in
    let tail : (c k.run_queue ++ x ∷ []) ++ due (wakes k) xs
        ≡ c k.run_queue ++ due (wakes k) (c k.tick_queue) =
      append_assoc (c k.run_queue) (x ∷ []) (due (wakes k) xs)
      ∙ ap (λ zs. c k.run_queue ++ zs) (sym first) in
    fun_ext λ r. rw (at_tick, at_run, same, tail) (ground (arith, ne))

still_out :
    (k : Kernel) (c : Contents) (n x : Addr) (xs ys : List Addr) (q : Addr)
    → c k.tick_queue ≡ xs ++ x ∷ ys
    → k.tick_queue ≢ k.run_queue
    → has n (c k.tick_queue) ≡ false
    → has n (c k.run_queue) ≡ false
    → has n (c q) ≡ false
    → has n (moved k c x (xs ++ ys) q) ≡ false
still_out k c n x xs ys q e ne out_tick out_run out =
    let out' : has n (xs ++ x ∷ ys) ≡ false = subst (λ zs. has n zs ≡ false) e out_tick in
    let gone : has n (xs ++ ys) ≡ false =
      ground (arith, out', has-append n xs ys, has-append n xs (x ∷ ys)) in
    let last : has n (c k.run_queue ++ x ∷ []) ≡ false =
      ground
        (arith, out', out_run, has-append n (c k.run_queue) (x ∷ []), has-append n xs (x ∷ ys)) in
    let at_run : update c k.tick_queue (xs ++ ys) k.run_queue ≡ c k.run_queue =
      ground (arith, ne) in
    elim (Bool-cases (q == k.run_queue)) [
      | inl h ↦ rw (h, at_run) last
      | inr h ↦ elim (Bool-cases (q == k.tick_queue)) [
        | inl h' ↦ rw (h, h') gone
        | inr h' ↦ rw (h, h') out
      ]
    ]

woken-none :
    (k : Kernel) (c : Contents) → find_first (wakes k) (c k.tick_queue) ≡ none → woken k c ≡ c
woken-none k c e =
    let (none_due, all_rest) = due-none (wakes k) (c k.tick_queue) e in
    rw (none_due, all_rest, append-nil (c k.run_queue)) (fun_ext λ r. ground arith)

module _ {live : Addr → Bool} {k : Kernel} {c : Contents} (run : Running live k c)
    (on : live k.tick_queue ≡ true) (own : k.tick_queue ≢ k.run_queue) where
  awaken-Running :
      (x : Addr) (xs ys : List Addr)
      → c k.tick_queue ≡ xs ++ x ∷ ys
      → Running live (awaken x k) (moved k c x (xs ++ ys))
        × ((awaken x k).machine.irq ≡ k.machine.irq)
  unfolding awaken process_start
  awaken-Running x xs ys e =
      let t = deleted-Taken run.ready k.tick_queue on own x xs ys e in
      let (ready, irq, current) = process_start-Ready t.ready x t.real t.free in
      (
        record {
          ready = ready;
          current_free = λ q onq.
              let n = k.current_context_pcb in
              let free = λ (r : Addr) (onr : live r ≡ true).
                has-tail n (k.store.sentinal r) (c r) (run.current_free r onr) in
              let out =
                still_out k c n x xs ys q e own (free k.tick_queue on)
                  (free k.run_queue run.ready.run_live) (free q onq) in
              rw
                (
                  append-sentinal k.run_queue x q (queue_delete_fast k.tick_queue x k.store).1,
                  delete_fast-sentinal k.tick_queue x q k.store,
                )
                (has-cons n (k.store.sentinal q) (c q) (moved k c x (xs ++ ys) q)
                  (run.current_free q onq) out);
          current_real = run.current_real;
        },
        irq,
      )

module _ {live : Addr → Bool} (fuel : ℕ) {k : Kernel} {c : Contents} where
  stop-Woken :
      Running live k c
      → queue_find (suc fuel) k.tick_queue (wakes k) true k.store ≡ some (found_reply none)
      → find_first (wakes k) (c k.tick_queue) ≡ none
      → Woken live (suc fuel) k c
  unfolding awaken_loop queue_find should_awaken
  stop-Woken run found e = record {
    result = k;
    returns = rw (awaken_loop, found);
    running = subst (λ c'. Running live k c') (sym (woken-none k c e)) run;
    same_current = refl;
    same_irq = refl;
    same_run = refl;
    same_tick = refl;
    same_ticks = refl;
    same_awaken = refl;
  }

  next-Woken :
      (x : Addr)
      → k.tick_queue ≢ k.run_queue
      → queue_find (suc fuel) k.tick_queue (wakes k) true k.store ≡ some (found_reply (some x))
      → (s : Split (wakes k) (c k.tick_queue) x) → (awaken x k).machine.irq ≡ k.machine.irq
      → Woken live fuel (awaken x k) (moved k c x (s.before ++ s.after))
      → Woken live (suc fuel) k c
  unfolding awaken_loop awaken process_start should_awaken
  next-Woken x own found s irq w = record {
    result = w.result;
    returns = rw (awaken_loop, found) w.returns;
    running =
        subst (λ c'. Running live w.result c')
          (moved-woken k c x (s.before ++ s.after) own s.rest_same s.due_first) w.running;
    same_current = w.same_current;
    same_irq = w.same_irq ∙ irq;
    same_run = w.same_run;
    same_tick = w.same_tick;
    same_ticks = w.same_ticks;
    same_awaken = w.same_awaken;
  }

module _ {live : Addr → Bool} where
  -- A loop with fuel for the tick queue ends, and moves every process that is due.
  pub awaken_loop-Woken :
      (fuel : ℕ) {k : Kernel} {c : Contents}
      → Running live k c
      → live k.tick_queue ≡ true
      → k.tick_queue ≢ k.run_queue
      → length (c k.tick_queue) < fuel
      → Woken live fuel k c
  unfolding awaken process_start
  awaken_loop-Woken zero run on own h = absurd (omega arith)
  awaken_loop-Woken (suc fuel) {k} {c} run on own h =
      let found = queue_find-first (suc fuel) (wakes k) (run.ready.queues.each k.tick_queue on) h in
      elim (Option-cases (find_first (wakes k) (c k.tick_queue))) [
        | inl e ↦ stop-Woken fuel run (found ∙ ap (λ o. some (found_reply o)) e) e
        | inr xe ↦
            let (x, e) = xe in
            let s = find_first-Split (wakes k) (c k.tick_queue) x e in
            let (run', irq) = awaken-Running run on own x s.before s.after s.whole in
            let at_tick : moved k c x (s.before ++ s.after) k.tick_queue ≡ s.before ++ s.after =
              ground (arith, own) in
            let enough : length (moved k c x (s.before ++ s.after) k.tick_queue) < fuel =
              rw at_tick (
                ground (
                  arith,
                  h,
                  ap length s.whole,
                  length-append s.before (x ∷ s.after),
                  length-append s.before s.after,
                )) in
            next-Woken fuel x own (found ∙ ap (λ o. some (found_reply o)) e) s irq
              (awaken_loop-Woken fuel run' on own enough)
      ]

-- The state once the tick is counted.
abbrev pub ticked : Kernel → Kernel
ticked k =
    set_irq (set_interrupt_level disabled k.machine.irq) (record k { ticks = u32 (k.ticks + 1) })
