-- ===== src/Scheduler/Staying.antt =====
-- A process that is on no queue stays on none when another one is started.
use rpiosv.Base.{
  ◌≡◌, ◌≢◌, true, false, List, [], ◌∷◌, ◌++◌, Bool, ◌==◌, Addr, arith, has, has-append, Bool-cases,
  inl, inr,
}
use rpiosv.Queue.{Store, queue_append}
use rpiosv.Queue.Family.{Contents, Free}
use rpiosv.Kernel.{Kernel}
use rpiosv.Scheduler.{process_start}
use rpiosv.Scheduler.RoundRobin.{started}

pub append-sentinal : (q n r : Addr) (s : Store) → (queue_append q n s).1.sentinal r ≡ s.sentinal r
unfolding queue_append
append-sentinal q n r s = ground arith

pub has-cons :
    (n a : Addr) (xs ys : List Addr)
    → has n (a ∷ xs) ≡ false
    → has n ys ≡ false
    → has n (a ∷ ys) ≡ false
has-cons n a xs ys h h' = ground arith

pub has-tail : (n a : Addr) (xs : List Addr) → has n (a ∷ xs) ≡ false → has n xs ≡ false
has-tail n a xs h = ground arith

module _ {live : Addr → Bool} (k : Kernel) (c : Contents) (t n : Addr) where
  pub started-Free :
      live k.run_queue ≡ true
      → n ≢ t
      → Free live k.store c n
      → Free live (process_start t k).store (started k c t) n
  unfolding process_start
  started-Free on ne free q onq =
      let out = has-tail n (k.store.sentinal k.run_queue) (c k.run_queue) (free k.run_queue on) in
      let last : has n (c k.run_queue ++ t ∷ []) ≡ false =
        ground (arith, out, has-append n (c k.run_queue) (t ∷ [])) in
      rw (append-sentinal k.run_queue t q k.store) (
        has-cons n (k.store.sentinal q) (c q) (started k c t q) (free q onq)
          (elim (Bool-cases (q == k.run_queue)) [
            | inl h ↦ rw h last
            | inr h ↦ rw h (has-tail n (k.store.sentinal q) (c q) (free q onq))
          ]))
