-- ===== src/Queue.antt =====
-- The doubly linked queues of src/queue.c. A node is any object that begins with `next` and `prev`,
-- a queue has a sentinel node and a length. Each field is a map from addresses, so that an
-- assignment through a pointer is an update of one map; a read or a write through NULL is one at
-- address 0, as on the machine, which has no memory protection. A status is 0 or -1.
pub mod Ring
pub mod State
pub mod Insert
pub mod Remove
pub mod Walk
pub mod New
pub mod Grow
pub mod Family
mod Examples
use rpiosv.Base.{
  ℕ, zero, suc, Bool, true, false, ◌||◌, Option, none, some, ◌==◌, if◌then◌else◌, Addr, null,
  update,
}
use rpiosv.Base.Int.{ℤ, pos, negsuc, succ_ℤ, pred_ℤ, is_zero}
use rpiosv.Memory.{Machine, Memory, salloc, sfree}

pub record Store : Type 0 where
  pub next : Addr → Addr
  pub prev : Addr → Addr
  pub sentinal : Addr → Addr
  pub length : Addr → ℤ

abbrev pub success : ℤ
success = pos 0

abbrev pub failure : ℤ
failure = negsuc 0

-- One assignment each.
abbrev pub set_next : Addr → Addr → Store → Store
set_next p v s = record s { next = update s.next p v }

abbrev pub set_prev : Addr → Addr → Store → Store
set_prev p v s = record s { prev = update s.prev p v }

abbrev pub set_sentinal : Addr → Addr → Store → Store
set_sentinal p v s = record s { sentinal = update s.sentinal p v }

abbrev pub set_length : Addr → ℤ → Store → Store
set_length p v s = record s { length = update s.length p v }

-- sizeof(queue_t) and sizeof(queue_node_header)
abbrev pub queue_size : ℕ
queue_size = 8

abbrev pub node_size : ℕ
node_size = 8

-- The rest of `queue_new` once the queue is allocated.
queue_new_sentinal : Addr → Store → Option (Addr × Machine) → Option (Addr × Machine × Store)
queue_new_sentinal new_queue s none = none
queue_new_sentinal new_queue s (some (sentinal, m)) =
    if sentinal == null
    then some (null, record m { memory = sfree new_queue m.memory }, s)
    else (let s1 = set_prev sentinal sentinal (set_next sentinal sentinal s) in
        some (new_queue, m, set_sentinal new_queue sentinal (set_length new_queue (pos 0) s1)))

-- `none` stands for a call that does not return.
pub queue_new : Machine → Store → Option (Addr × Machine × Store)
unfolding queue_new_sentinal
queue_new m s = elim (salloc queue_size m) [
  | none ↦ none
  | some (new_queue, m') ↦
      if new_queue == null
      then some (null, m', s)
      else queue_new_sentinal new_queue s (salloc node_size m')
]

pub queue_prepend : (queue item : Addr) → Store → ℤ × Store
queue_prepend queue item s =
    if queue == null
    then (failure, s)
    else if item == null
    then (failure, s)
    else (let s1 = set_next item (s.next (s.sentinal queue)) s in
        let s2 = set_prev item (s1.sentinal queue) s1 in
        let s3 = set_prev (s2.next item) item s2 in
        let s4 = set_next (s3.prev item) item s3 in
        (success, set_length queue (succ_ℤ (s4.length queue)) s4))

unfoldable pub queue_append : (queue item : Addr) → Store → ℤ × Store
queue_append queue item s =
    if queue == null
    then (failure, s)
    else if item == null
    then (failure, s)
    else (let s1 = set_next item (s.sentinal queue) s in
        let s2 = set_prev item (s1.prev (s1.sentinal queue)) s1 in
        let s3 = set_prev (s2.next item) item s2 in
        let s4 = set_next (s3.prev item) item s3 in
        (success, set_length queue (succ_ℤ (s4.length queue)) s4))

-- What a call returns through its `item` argument: the status, and the value written to `*item`,
-- if one is written.
pub record Reply : Type 0 where
  pub status : ℤ
  pub item : Option Addr

-- `has_item` is `item != NULL`. Past the guard the code writes to `*item` without that test.
unfoldable pub queue_dequeue : (queue : Addr) (has_item : Bool) → Store → Reply × Store
queue_dequeue queue has_item s =
    if queue == null || is_zero (s.length queue)
    then (record { status = failure; item = if has_item then some null else none }, s)
    else (let to_dequeue = s.next (s.sentinal queue) in
        let s1 = set_next (s.prev to_dequeue) (s.next to_dequeue) s in
        let s2 = set_prev (s1.next to_dequeue) (s1.prev to_dequeue) s1 in
        (
          record { status = success; item = some to_dequeue },
          set_length queue (pred_ℤ (s2.length queue)) s2,
        ))

-- The loop of `queue_iterate` from `cur` on. `f` may change the store and a world `W` of its own;
-- `cur->next` is read after the call.
pub iterate_loop {ℓ} :
    {W : Type ℓ}
    → (Addr → Store × W → Store × W)
    → ℕ
    → (queue cur : Addr) → Store × W
    → Option (Store × W)
iterate_loop f zero queue cur w = none
iterate_loop f (suc fuel) queue cur w =
    let w' = f cur w in
    let rest = iterate_loop f fuel queue (w'.0.next cur) w' in
    if cur == w.0.sentinal queue then some w else rest

-- `none` stands for a walk that did not come back to the sentinel within `fuel` rounds.
pub queue_iterate {ℓ} :
    {W : Type ℓ}
    → (fuel : ℕ) (queue : Addr) → (Addr → Store × W → Store × W)
    → Store × W
    → Option (ℤ × (Store × W))
unfolding iterate_loop
queue_iterate fuel queue f w =
    if queue == null
    then some (failure, w)
    else elim (iterate_loop f fuel queue (w.0.next (w.0.sentinal queue)) w) [
      | none ↦ none
      | some w' ↦ some (success, w')
    ]

pub queue_free : (queue : Addr) → Store → Memory → ℤ × Memory
queue_free queue s m =
    if queue == null
    then (failure, m)
    else if is_zero (s.length queue)
    then (success, sfree queue (sfree (s.sentinal queue) m))
    else (failure, m)

unfoldable pub queue_length : (queue : Addr) → Store → ℤ
queue_length queue s = if queue == null then failure else s.length queue

-- The loop of `queue_delete` from `cur` on.
pub delete_loop : ℕ → (queue item cur : Addr) → Store → Option (ℤ × Store)
delete_loop zero queue item cur s = none
delete_loop (suc fuel) queue item cur s =
    let rest = delete_loop fuel queue item (s.next cur) s in
    if cur == s.sentinal queue
    then some (failure, s)
    else if cur == item
    then (let s1 = set_prev (s.next cur) (s.prev cur) s in
        let s2 = set_next (s1.prev cur) (s1.next cur) s1 in
        some (success, set_length queue (pred_ℤ (s2.length queue)) s2))
    else rest

pub queue_delete : (fuel : ℕ) (queue item : Addr) → Store → Option (ℤ × Store)
unfolding delete_loop
queue_delete fuel queue item s =
    if queue == null
    then some (failure, s)
    else delete_loop fuel queue item (s.next (s.sentinal queue)) s

unfoldable pub queue_delete_fast : (queue item : Addr) → Store → ℤ × Store
queue_delete_fast queue node s =
    if queue == null
    then (failure, s)
    else (let s1 = set_prev (s.next node) (s.prev node) s in
        let s2 = set_next (s1.prev node) (s1.next node) s1 in
        (success, set_length queue (pred_ℤ (s2.length queue)) s2))

-- The loop of `queue_find` from `cur` on; `f` is the comparison with its argument.
pub find_loop : ℕ → (Addr → Bool) → (sentinal cur : Addr) → Store → Option Reply
find_loop zero f sentinal cur s = none
find_loop (suc fuel) f sentinal cur s =
    let rest = find_loop fuel f sentinal (s.next cur) s in
    if cur == sentinal
    then some (record { status = failure; item = some null })
    else if f cur
    then some (record { status = success; item = some cur })
    else rest

unfoldable pub queue_find :
    (fuel : ℕ) (queue : Addr) → (Addr → Bool) → (has_item : Bool) → Store → Option Reply
unfolding find_loop
queue_find fuel queue f has_item s =
    if queue == null
    then some (record { status = failure; item = none })
    else if has_item
    then find_loop fuel f (s.sentinal queue) (s.next (s.sentinal queue)) s
    else some (record { status = failure; item = none })
