-- ===== src/Clock/Window.antt =====
-- A tick between the two halves of `proc_sleep_ms`: the sleeping process still runs, and the yield
-- of the handler puts its node on the run queue while it is on the tick queue.
use rpiosv.Base.{
  ◌≡◌, ◌≢◌, refl, ap, sym, subst, ◌∙◌, true, false, List, [], ◌∷◌, ◌++◌, Bool, Addr, arith, has,
  has-append,
}
use rpiosv.Base.Int.{ℤ}
use rpiosv.Queue.{Store, queue_append}
use rpiosv.Queue.Ring.{last_of, prev-last, next-last}
use rpiosv.Queue.Insert.{has-last_of}
use rpiosv.Queue.State.{IsQueue}
use rpiosv.Queue.Family.{Contents, nodes, Queues}
use rpiosv.Kernel.{Kernel}
use rpiosv.Scheduler.{process_start, get_current_process}
use rpiosv.Scheduler.Turns.{Running}
use rpiosv.Clock.{sleep_enqueue}
use rpiosv.Scheduler.Staying.{append-sentinal}
use rpiosv.Clock.Sleep.{slept, sleep_enqueue-Ready}

last-snoc : (a n : Addr) (xs : List Addr) → last_of a (xs ++ n ∷ []) ≡ n
last-snoc a n [] = refl
last-snoc a n (x ∷ xs) = last-snoc x n xs

module _ (live : Addr → Bool) (s : Store) (c : Contents) (q run n : Addr) (xs : List Addr)
    (qs : Queues live s c) (on : live q ≡ true) (on' : live run ≡ true) (ne : q ≢ run)
    (e : c q ≡ xs ++ n ∷ []) where
  in_q : has n (c q) ≡ true
  in_q = rw e (ground (arith, has-append n xs (n ∷ [])))

  out_run : has n (nodes s c run) ≡ false
  out_run = qs.apart run q on' on (λ h. ne (sym h)) n (ground (arith, in_q))

  apart_sentinals : s.sentinal q ≢ s.sentinal run
  apart_sentinals h = ground (arith, qs.apart q run on on' ne (s.sentinal run), h)

  last_q : s.prev (s.sentinal q) ≡ n
  last_q =
      prev-last s.next s.prev (s.sentinal q) (s.sentinal q) (c q) (qs.each q on).ring
      ∙ ap (last_of (s.sentinal q)) e
      ∙ last-snoc (s.sentinal q) n xs

  last_run : s.prev (s.sentinal run) ≢ n
  last_run h =
      let l =
        prev-last s.next s.prev (s.sentinal run) (s.sentinal run) (c run) (qs.each run on').ring in
      let i = has-last_of (s.sentinal run) (c run) in
      let i' : has n (nodes s c run) ≡ true =
        subst (λ m. has m (nodes s c run) ≡ true) (sym l ∙ h) i in
      ground (arith, i', out_run)

  written_next : (queue_append run n s).1.next n ≡ s.sentinal run
  unfolding queue_append
  written_next =
      ground (arith, (qs.each run on').live, (qs.each q on).real, in_q, last_run, out_run)

  kept_prev : (queue_append run n s).1.prev (s.sentinal q) ≡ n
  unfolding queue_append
  kept_prev = ground (arith, last_q, in_q, (qs.each q on).distinct.0, apart_sentinals)

  -- A node appended to `run` while it is last on `q`: `q` is no queue any more.
  append-twice : (ys : List Addr) → ¬ IsQueue (queue_append run n s).1 q (s.sentinal q) ys
  append-twice ys is =
      let t = (queue_append run n s).1 in
      let back = prev-last t.next t.prev (s.sentinal q) (s.sentinal q) ys is.ring in
      let forth = next-last t.next t.prev (s.sentinal q) (s.sentinal q) ys is.ring in
      let same : s.sentinal q ≡ s.sentinal run =
        sym forth ∙ ap t.next (sym back ∙ kept_prev) ∙ written_next in
      apart_sentinals same

module _ {live : Addr → Bool} {k : Kernel} {c : Contents} (run : Running live k c)
    (on : live k.tick_queue ≡ true) (own : k.tick_queue ≢ k.run_queue)
    (busy : k.current_context_pcb ≢ k.idle_process) where
  -- The first half of `proc_sleep_ms`, by a process other than the idle one, ends at the interrupt
  -- level of its caller. A `process_start` of the running process at that point, with which
  -- `process_yield` begins, leaves a tick queue that is no well-formed queue, whatever it is to hold.
  pub sleep_enqueue-window :
      (sleepms : ℤ) (ys : List Addr)
      → ((sleep_enqueue sleepms k).machine.irq ≡ k.machine.irq)
        × (¬ IsQueue
            (process_start
              (get_current_process (sleep_enqueue sleepms k))
              (sleep_enqueue sleepms k)).store
            k.tick_queue
            (k.store.sentinal k.tick_queue)
            ys)
  unfolding sleep_enqueue process_start get_current_process
  sleep_enqueue-window sleepms ys =
      let (ready, irq) = sleep_enqueue-Ready run on own busy sleepms in
      let s = (queue_append k.tick_queue k.current_context_pcb k.store).1 in
      let here : slept k c k.tick_queue ≡ c k.tick_queue ++ k.current_context_pcb ∷ [] =
        ground arith in
      (
        irq,
        subst
            (λ sen.
              ¬ IsQueue (queue_append k.run_queue k.current_context_pcb s).1 k.tick_queue sen ys)
            (append-sentinal k.tick_queue k.current_context_pcb k.tick_queue k.store)
            (append-twice live s (slept k c) k.tick_queue k.run_queue k.current_context_pcb
              (c k.tick_queue) ready.queues on ready.run_live own here ys),
      )
