-- ===== src/Scheduler/Blocking.antt =====
-- The running process is put on a queue other than the run queue, as a step of giving up the
-- processor.
use rpiosv.Base.{
  ◌≡◌, ◌≢◌, subst, true, false, some, List, [], ◌∷◌, ◌++◌, Bool, ◌==◌, Addr, null, arith, has,
  has-append, update, Bool-cases, inl, inr,
}
use rpiosv.Queue.{Store, success, queue_append, queue_dequeue, queue_delete_fast}
use rpiosv.Queue.Family.{
  Contents, Queues, Free, queue_append-Queues, queue_dequeue-Queues, queue_delete_fast-Queues,
}
use rpiosv.Queue.State.{IsQueue}
use rpiosv.Kernel.{Kernel, set_store}
use rpiosv.Scheduler.Turns.{Ready, Running}

has-snoc :
    (i n a : Addr) (xs : List Addr)
    → has i (a ∷ xs) ≡ false
    → n ≢ i
    → has i (a ∷ (xs ++ n ∷ [])) ≡ false
has-snoc i n a xs h ne = ground (arith, has-append i xs (n ∷ []))

module _ {live : Addr → Bool} {k : Kernel} {c : Contents} (run : Running live k c) (q : Addr)
    (on : live q ≡ true) (own : q ≢ k.run_queue)
    (busy : k.current_context_pcb ≢ k.idle_process) where
  pub blocked-Ready :
      Ready live
        (set_store (queue_append q k.current_context_pcb k.store).1 k)
        (update c q (c q ++ k.current_context_pcb ∷ []))
  blocked-Ready =
      let (queues, same) =
        queue_append-Queues run.ready.queues q on k.current_context_pcb run.current_real
          run.current_free in
      record {
        queues = queues;
        run_live = run.ready.run_live;
        idle_real = run.ready.idle_real;
        idle_home = λ r onr ne. elim (Bool-cases (r == q)) [
          | inl e ↦
              let here : r ≡ q = ground arith in
              rw (e, same r, here)
                (has-snoc k.idle_process k.current_context_pcb (k.store.sentinal q) (c q)
                  (run.ready.idle_home q on own) busy)
          | inr e ↦ rw (e, same r) (run.ready.idle_home r onr ne)
        ];
        idle_node = rw (same k.run_queue) run.ready.idle_node;
      }

-- A process that was taken off a queue other than the run queue.
pub record Taken (live : Addr → Bool) (k : Kernel) (c : Contents) (s : Store) (x : Addr)
    : Type 0 where
  pub ready : Ready live (set_store s k) c
  pub free : Free live s c x
  pub real : x ≢ null

module _ {live : Addr → Bool} {k : Kernel} {c : Contents} (r : Ready live k c) (q : Addr)
    (on : live q ≡ true) (own : q ≢ k.run_queue) where
  still-Ready :
      (s : Store) (xs : List Addr)
      → Queues live s (update c q xs)
      → ((p : Addr) → s.sentinal p ≡ k.store.sentinal p)
      → has k.idle_process (k.store.sentinal q ∷ xs) ≡ false
      → Ready live (set_store s k) (update c q xs)
  still-Ready s xs queues same out = record {
    queues = queues;
    run_live = r.run_live;
    idle_real = r.idle_real;
    idle_home = λ p onp ne. elim (Bool-cases (p == q)) [
      | inl e ↦ let here : p ≡ q = ground arith in rw (e, same p, here) out
      | inr e ↦ rw (e, same p) (r.idle_home p onp ne)
    ];
    idle_node = rw (same k.run_queue) r.idle_node;
  }

  home : (ys : List Addr) → c q ≡ ys → has k.idle_process (k.store.sentinal q ∷ ys) ≡ false
  home ys e =
      subst (λ zs. has k.idle_process (k.store.sentinal q ∷ zs) ≡ false) e (r.idle_home q on own)

  is_at : (ys : List Addr) → c q ≡ ys → IsQueue k.store q (k.store.sentinal q) ys
  is_at ys e = subst (λ zs. IsQueue k.store q (k.store.sentinal q) zs) e (r.queues.each q on)

  pub dequeued-Taken :
      (x : Addr) (xs : List Addr)
      → c q ≡ x ∷ xs
      → ((queue_dequeue q true k.store).0 ≡ record { status = success; item = some x })
        × Taken live k (update c q xs) (queue_dequeue q true k.store).1 x
  dequeued-Taken x xs e =
      let (reply, queues, free, same) = queue_dequeue-Queues r.queues q on x xs e in
      (
        reply,
        record {
          ready =
              still-Ready (queue_dequeue q true k.store).1 xs queues same
                (ground (arith, home (x ∷ xs) e));
          free = free;
          real = ground (arith, (is_at (x ∷ xs) e).real);
        },
      )

  pub deleted-Taken :
      (n : Addr) (xs ys : List Addr)
      → c q ≡ xs ++ n ∷ ys
      → Taken live k (update c q (xs ++ ys)) (queue_delete_fast q n k.store).1 n
  deleted-Taken n xs ys e =
      let (queues, free, same) = queue_delete_fast-Queues r.queues q on n xs ys e in
      let out = home (xs ++ n ∷ ys) e in
      let live' = (is_at (xs ++ n ∷ ys) e).real in
      record {
        ready = still-Ready (queue_delete_fast q n k.store).1 (xs ++ ys) queues same (
            ground
              (arith, out, has-append k.idle_process xs (n ∷ ys), has-append k.idle_process xs ys));
        free = free;
        real = ground (arith, live', has-append null xs (n ∷ ys));
      }
