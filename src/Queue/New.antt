-- ===== src/Queue/New.antt =====
-- `queue_new`, `queue_free` and `queue_length`.
use rpiosv.Base.{
  ◌≡◌, ◌≢◌, refl, some, List, [], ◌==◌, if◌then◌else◌, Addr, null, arith, length, update,
}
use rpiosv.Base.Int.{pos}
use rpiosv.Memory.{Machine, Memory, salloc, sfree}
use rpiosv.Queue.{
  Store, success, failure, queue_new, queue_free, queue_length, queue_size, node_size,
}
use rpiosv.Queue.State.{IsQueue}

module _ (m m1 m2 : Machine) (s : Store) (q sen : Addr) where
  -- When both allocations succeed, `queue_new` returns an empty queue at the first, and changes
  -- nothing but the new queue and its sentinel.
  pub queue_new-IsQueue :
      salloc queue_size m ≡ some (q, m1)
      → salloc node_size m1 ≡ some (sen, m2)
      → q ≢ null
      → sen ≢ null
      → (t : Store) × (queue_new m s ≡ some (q, m2, t))
        × IsQueue t q sen []
        × ((p : Addr) → p ≢ sen → (t.next p ≡ s.next p) × (t.prev p ≡ s.prev p))
        × ((p : Addr) → p ≢ q → (t.sentinal p ≡ s.sentinal p) × (t.length p ≡ s.length p))
  unfolding queue_new
  queue_new-IsQueue e f live real = (
    record {
      next = update s.next sen sen;
      prev = update s.prev sen sen;
      sentinal = update s.sentinal q sen;
      length = update s.length q (pos 0);
    },
    ground arith,
    record {
      live = live;
      at = ground arith;
      count = ground arith;
      ring = (ground arith, ground arith);
      distinct = (refl, tt);
      real = ground arith;
    },
    λ p h. ground arith,
    λ p h. ground arith,
  )

  -- When the sentinel cannot be allocated, `queue_new` frees the queue again and returns NULL.
  pub queue_new-null :
      salloc queue_size m ≡ some (q, m1)
      → salloc node_size m1 ≡ some (null, m2)
      → q ≢ null
      → queue_new m s ≡ some (null, record m2 { memory = sfree q m2.memory }, s)
  unfolding queue_new
  queue_new-null e f live = ground arith

-- On a well-formed queue `queue_length` is the number of nodes, and `queue_free` frees the sentinel
-- and the queue exactly when there are none, else it returns -1 and frees nothing.
pub queue_free-length :
    (s : Store) (m : Memory) (q sen : Addr) (xs : List Addr)
    → IsQueue s q sen xs
    → (queue_length q s ≡ pos (length xs))
      × (queue_free q s m
          ≡ (if length xs == 0 then (success, sfree q (sfree sen m)) else (failure, m)))
unfolding queue_length queue_free
queue_free-length s m q sen xs is =
    (ground (arith, is.live, is.count), ground (arith, is.live, is.count, is.at))
