-- ===== src/Scheduler/Turns.antt =====
-- Who runs next: the invariant of the run queue, and round-robin order.
use rpiosv.Base.{
  ◌+◌, ◌≡◌, ◌≢◌, refl, ap, sym, subst, fun_ext, ◌∙◌, true, false, List, [], ◌∷◌, Bool, ◌==◌, Addr,
  null, arith, length, has, update, Bool-cases, inl, inr,
}
use rpiosv.Base.Int.{pos, is_pos}
use rpiosv.Interrupts.Level.{Level, disabled, enabled, set_interrupt_level, set_interrupt_level_lem}
use rpiosv.Memory.{u32, sub32}
use rpiosv.Queue.{Store, queue_length}
use rpiosv.Queue.State.{IsQueue}
use rpiosv.Queue.Family.{Contents, nodes, Queues, Free, queue_dequeue-Queues}
use rpiosv.Kernel.{Kernel, Registers, context_switch, cpsr_of, saved_size, set_irq}
use rpiosv.Scheduler.{pick_next, schedule_next_process}

-- The queues hold `c`, and the idle process is on no queue but the run queue.
pub record Ready (live : Addr → Bool) (k : Kernel) (c : Contents) : Type 0 where
  pub queues : Queues live k.store c
  pub run_live : live k.run_queue ≡ true
  pub idle_real : k.idle_process ≢ null
  pub idle_home :
      (q : Addr) → live q ≡ true → q ≢ k.run_queue → has k.idle_process (nodes k.store c q) ≡ false
  pub idle_node : k.idle_process ≢ k.store.sentinal k.run_queue

-- Besides, the running process is on no queue.
pub record Running (live : Addr → Bool) (k : Kernel) (c : Contents) : Type 0 where
  pub ready : Ready live k c
  pub current_free : Free live k.store c k.current_context_pcb
  pub current_real : k.current_context_pcb ≢ null

-- The process whose turn it is, and those that wait after it.
abbrev pub turn : Addr → List Addr → Addr
turn idle [] = idle
turn idle (x ∷ xs) = x

abbrev pub later : List Addr → List Addr
later [] = []
later (x ∷ xs) = xs

update_same : (c : Contents) (q : Addr) (xs : List Addr) → c q ≡ xs → update c q xs ≡ c
update_same c q xs e = fun_ext λ r. ground arith

abbrev pub nonempty : List Addr → Bool
nonempty [] = false
nonempty (x ∷ xs) = true

count_pos : (xs : List Addr) → is_pos (pos (length xs)) ≡ nonempty xs
count_pos [] = refl
count_pos (x ∷ xs) = ground arith

pub length-queue :
    (live : Addr → Bool) (s : Store) (c : Contents) (q : Addr)
    → Queues live s c
    → live q ≡ true
    → is_pos (queue_length q s) ≡ nonempty (c q)
unfolding queue_length
length-queue live s c q qs on =
    ground (arith, (qs.each q on).live, (qs.each q on).count, count_pos (c q))

-- The state that the choice of the next process leaves: that process is on no queue.
record Picked (live : Addr → Bool) (k : Kernel) (c : Contents) (next : Addr) : Type 0 where
  chosen : (pick_next k).0 ≡ next
  queues : Queues live (pick_next k).1 c
  free : Free live (pick_next k).1 c next
  sentinals : (q : Addr) → (pick_next k).1.sentinal q ≡ k.store.sentinal q
  real : next ≢ null

module _ {live : Addr → Bool} {k : Kernel} {c : Contents} (r : Ready live k c) where
  idle-Free : c k.run_queue ≡ [] → Free live k.store c k.idle_process
  idle-Free e q on = elim (Bool-cases (q == k.run_queue)) [
    | inl h ↦
        let same : q ≡ k.run_queue = ground arith in rw (same, e) (ground (arith, r.idle_node))
    | inr h ↦ r.idle_home q on (ground arith)
  ]

  waiting :
      (xs : List Addr)
      → c k.run_queue ≡ xs
      → is_pos (queue_length k.run_queue k.store) ≡ nonempty xs
  waiting xs e = length-queue live k.store c k.run_queue r.queues r.run_live ∙ ap nonempty e

  Picked-nil : c k.run_queue ≡ [] → Picked live k c k.idle_process
  unfolding pick_next
  Picked-nil e = record {
    chosen = rw (waiting [] e);
    queues = rw (waiting [] e) r.queues;
    free = λ q on. rw (waiting [] e) (idle-Free e q on);
    sentinals = λ q. rw (waiting [] e);
    real = r.idle_real;
  }

  Picked-cons :
      (x : Addr) (xs : List Addr)
      → c k.run_queue ≡ x ∷ xs
      → Picked live k (update c k.run_queue xs) x
  unfolding pick_next
  Picked-cons x xs e =
      let (reply, queues, free, sentinals) =
        queue_dequeue-Queues r.queues k.run_queue r.run_live x xs e in
      let some_wait : is_pos (queue_length k.run_queue k.store) ≡ true = waiting (x ∷ xs) e in
      record {
        chosen = rw (some_wait, reply);
        queues = rw some_wait queues;
        free = λ q on. rw some_wait (free q on);
        sentinals = λ q. rw some_wait (sentinals q);
        real =
            let is =
              subst (λ ys. IsQueue k.store k.run_queue (k.store.sentinal k.run_queue) ys) e
                (r.queues.each k.run_queue r.run_live) in
            ground (arith, is.real);
      }

  picked :
      (xs : List Addr)
      → c k.run_queue ≡ xs
      → Picked live k (update c k.run_queue (later xs)) (turn k.idle_process xs)
  picked [] e = rw (update_same c k.run_queue [] e) (Picked-nil e)
  picked (x ∷ xs) e = Picked-cons x xs e

  away_home :
      (q : Addr) (xs : List Addr) (s : Store)
      → ((p : Addr) → s.sentinal p ≡ k.store.sentinal p)
      → live q ≡ true
      → q ≢ k.run_queue
      → has k.idle_process (nodes s (update c k.run_queue xs) q) ≡ false
  away_home q xs s same on ne =
      let other : (q == k.run_queue) ≡ false = ground arith in
      rw (other, same q) (r.idle_home q on ne)

-- The same at another interrupt level.
pub quiet :
    (l : Level) {live : Addr → Bool} {k : Kernel} {c : Contents}
    → Ready live k c
    → Ready live (set_irq l k) c
quiet l r = record {
  queues = r.queues;
  run_live = r.run_live;
  idle_real = r.idle_real;
  idle_home = r.idle_home;
  idle_node = r.idle_node;
}

module _ {live : Addr → Bool} {k : Kernel} {c : Contents} (r : Ready live k c) where
  pub schedule_next_process-turn :
      ((schedule_next_process k).current_context_pcb ≡ turn k.idle_process (c k.run_queue))
      × Running live (schedule_next_process k) (update c k.run_queue (later (c k.run_queue)))
      × ((schedule_next_process k).machine.irq ≡ enabled)
  unfolding schedule_next_process context_switch
  schedule_next_process-turn =
      let p = picked (quiet (set_interrupt_level disabled k.machine.irq) r) (c k.run_queue) refl in
      (
        p.chosen,
        record {
          ready = record {
            queues = p.queues;
            run_live = r.run_live;
            idle_real = r.idle_real;
            idle_home = λ q on ne.
                away_home r q (later (c k.run_queue)) (schedule_next_process k).store p.sentinals on
                  ne;
            idle_node = rw (p.sentinals k.run_queue) r.idle_node;
          };
          current_free = λ q on.
              subst
                (λ n.
                  has n (
                    nodes (schedule_next_process k).store
                      (update c k.run_queue (later (c k.run_queue))) q)
                  ≡ false)
                (sym p.chosen) (p.free q on);
          current_real = subst (λ n. n ≢ null) (sym p.chosen) p.real;
        },
        set_interrupt_level_lem enabled _,
      )

-- The registers once what stands at the top of the stack of `next` has been popped.
abbrev pub popped : Addr → Kernel → Registers
popped next k =
    let top = k.current_stack_pointer next in
    record {
      r = (k.saved top).r;
      sp = u32 (top + saved_size);
      lr = (k.saved top).cleanup;
      pc = (k.saved top).lr;
    }

-- The switch from `old` to `next`: the registers of `k` are at the top of the stack of `old`, with
-- interrupts disabled and the return address of the call twice, and what stands at the top of the
-- stack of `next` is in the registers, with its first return address in lr and its second in pc.
pub record Switched (old next : Addr) (k k' : Kernel) : Type 0 where
  pub tops :
      k'.current_stack_pointer
      ≡ update k.current_stack_pointer old (sub32 k.registers.sp saved_size)
  pub stacks :
      k'.saved
      ≡ update k.saved (sub32 k.registers.sp saved_size) (record {
        cpsr = 0x1DA;
        r = k.registers.r;
        cleanup = k.registers.lr;
        lr = k.registers.lr;
      })
  pub resumed : k'.registers ≡ popped next k'

module _ {live : Addr → Bool} {k : Kernel} {c : Contents} (r : Ready live k c) where
  schedule_next_process-Switched :
      Switched k.current_context_pcb
        (schedule_next_process k).current_context_pcb
        k
        (schedule_next_process k)
  unfolding schedule_next_process context_switch cpsr_of
  schedule_next_process-Switched =
      let off = set_interrupt_level_lem disabled k.machine.irq in
      record { tops = refl; stacks = rw off refl; resumed = refl }

  -- `schedule_next_process` runs the first process of the run queue, or the idle process if there
  -- is none, and takes it off the run queue: the registers are saved on the stack of the process
  -- that ran and those of the process that runs now are taken from its stack. No other queue
  -- changes, the process that runs is on no queue, and interrupts are enabled.
  pub schedule_next_process-Running :
      ((schedule_next_process k).current_context_pcb ≡ turn k.idle_process (c k.run_queue))
      × Switched k.current_context_pcb
          (turn k.idle_process (c k.run_queue))
          k
          (schedule_next_process k)
      × Running live (schedule_next_process k) (update c k.run_queue (later (c k.run_queue)))
      × ((schedule_next_process k).machine.irq ≡ enabled)
  schedule_next_process-Running =
      let (next, run, irq) = schedule_next_process-turn r in
      (
        next,
        subst (λ n. Switched k.current_context_pcb n k (schedule_next_process k)) next
            schedule_next_process-Switched,
        run,
        irq,
      )
