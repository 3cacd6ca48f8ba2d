-- ===== src/Semaphore/Create.antt =====
-- `semaphore_create`: a semaphore with a queue of its own, on which nobody waits.
use rpiosv.Base.{ℕ, ◌≡◌, ◌≢◌, refl, true, some, [], ◌==◌, if◌then◌else◌, Addr, null, arith, update}
use rpiosv.Base.Int.{pos}
use rpiosv.Memory.{Machine, salloc}
use rpiosv.Queue.{queue_size, node_size}
use rpiosv.Queue.State.{IsQueue}
use rpiosv.Queue.New.{queue_new-IsQueue}
use rpiosv.Kernel.{Kernel}
use rpiosv.Semaphore.{semaphore_create, semaphore_size}
use rpiosv.Semaphore.Waiting.{Balanced}

module _ (k : Kernel) (m1 m2 m3 : Machine) (sem q sen : Addr) where
  -- When the three allocations succeed, `semaphore_create` of a count that is not negative returns a
  -- semaphore that is balanced against a new, empty wait queue; no other semaphore changes.
  pub semaphore_create-IsQueue :
      (n : ℕ)
      → salloc semaphore_size k.machine ≡ some (sem, m1)
      → salloc queue_size m1 ≡ some (q, m2)
      → salloc node_size m2 ≡ some (sen, m3)
      → q ≢ null
      → sen ≢ null
      → (k' : Kernel) × (semaphore_create (pos n) k ≡ some (sem, k'))
        × IsQueue k'.store (k'.wait_queue sem) sen []
        × Balanced (k'.count sem) []
        × ((p : Addr) → k'.count p ≡ (if p == sem then pos n else k.count p))
        × ((p : Addr) → k'.wait_queue p ≡ (if p == sem then q else k.wait_queue p))
        × (k'.machine ≡ m3)
  unfolding semaphore_create
  semaphore_create-IsQueue n e1 e2 e3 live real =
      let (t, new, empty, _, _) = queue_new-IsQueue m1 m2 m3 k.store q sen e2 e3 live real in
      let here : (sem == sem) ≡ true = ground arith in
      (
        record k {
          machine = m3;
          store = t;
          wait_queue = update k.wait_queue sem q;
          count = update k.count sem (pos n);
        },
        rw (semaphore_create, e1, new) refl,
        rw here empty,
        rw here refl,
        λ p. refl,
        λ p. refl,
        refl,
      )
