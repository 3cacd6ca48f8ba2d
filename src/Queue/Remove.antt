-- ===== src/Queue/Remove.antt =====
-- `queue_dequeue` and `queue_delete_fast` take a node from a queue.
use rpiosv.Base.{
  suc, ◌≡◌, ap, ◌∙◌, none, some, List, [], ◌∷◌, ◌++◌, Bool, ◌==◌, if◌then◌else◌, Addr, null, arith,
  length, length-append, has-append, Distinct,
}
use rpiosv.Base.Int.{pos, pred_ℤ}
use rpiosv.Queue.{Store, success, failure, queue_dequeue, queue_delete_fast}
use rpiosv.Queue.Ring.{Ring-remove, Ring-neighbours, last_of, first_of_list, next-first}
use rpiosv.Queue.State.{IsQueue, Frame}
use rpiosv.Queue.Insert.{has-last_of, has-first_of_list}

Distinct-remove : (n : Addr) (xs ys : List Addr) → Distinct (xs ++ n ∷ ys) → Distinct (xs ++ ys)
Distinct-remove n [] ys d = d.1
Distinct-remove n (x ∷ xs) ys d =
    (ground (arith, has-append x xs ys, has-append x xs (n ∷ ys), d.0), Distinct-remove n xs ys d.1)

-- The maps after the two assignments that unlink `n`.
module _ (s : Store) (q sen n : Addr) (xs ys : List Addr) (is : IsQueue s q sen (xs ++ n ∷ ys))
    (t : Store)
    (wn : (p : Addr) → t.next p ≡ (if p == last_of sen xs then first_of_list ys sen else s.next p))
    (wp : (p : Addr) → t.prev p ≡ (if p == first_of_list ys sen then last_of sen xs else s.prev p))
    (ws : (p : Addr) → t.sentinal p ≡ s.sentinal p)
    (wl : (p : Addr) → t.length p ≡ (if p == q then pred_ℤ (s.length q) else s.length p)) where
  pub removed : IsQueue t q sen (xs ++ ys)
  removed = record {
    live = is.live;
    at = ws q ∙ is.at;
    count =
        let same : t.length q ≡ pred_ℤ (s.length q) = ground (arith, wl q) in
        let size : length (xs ++ n ∷ ys) ≡ suc (length (xs ++ ys)) =
          omega (arith, length-append xs ys, length-append xs (n ∷ ys)) in
        same ∙ ap pred_ℤ (is.count ∙ ap pos size);
    ring =
        Ring-remove s.next s.prev t.next t.prev sen sen n xs ys is.ring is.distinct is.distinct.0 wn
          wp;
    distinct = Distinct-remove n (sen ∷ xs) ys is.distinct;
    real = ground (arith, is.real, has-append null xs ys, has-append null xs (n ∷ ys));
  }

  pub removed-Frame : Frame (sen ∷ (xs ++ ys)) q s t
  removed-Frame = record {
    same_next = λ p h. ground (arith, wn p, has-last_of sen xs, has-append p xs ys);
    same_prev = λ p h. ground (arith, wp p, has-first_of_list ys sen, has-append p xs ys);
    same_sentinal = ws;
    same_length = λ p h. ground (arith, wl p);
  }

module _ {s : Store} {q sen : Addr} (n : Addr) (xs ys : List Addr)
    (is : IsQueue s q sen (xs ++ n ∷ ys)) where
  abbrev deleted : Store
  deleted = (queue_delete_fast q n s).1

  deleted_next :
      (p : Addr) → deleted.next p ≡ (if p == last_of sen xs then first_of_list ys sen else s.next p)
  unfolding queue_delete_fast
  deleted_next p = ground (arith, is.live, Ring-neighbours s.next s.prev sen sen n xs ys is.ring)

  deleted_prev :
      (p : Addr) → deleted.prev p ≡ (if p == first_of_list ys sen then last_of sen xs else s.prev p)
  unfolding queue_delete_fast
  deleted_prev p = ground (arith, is.live, Ring-neighbours s.next s.prev sen sen n xs ys is.ring)

  -- `queue_delete_fast` of a node on the queue returns 0 and takes it out; it changes nothing but
  -- the other nodes of the queue and its length.
  pub queue_delete_fast-IsQueue :
      ((queue_delete_fast q n s).0 ≡ success)
      × IsQueue (queue_delete_fast q n s).1 q sen (xs ++ ys)
      × Frame (sen ∷ (xs ++ ys)) q s (queue_delete_fast q n s).1
  unfolding queue_delete_fast
  queue_delete_fast-IsQueue =
      let ws : (p : Addr) → deleted.sentinal p ≡ s.sentinal p = λ p. ground (arith, is.live) in
      let wl : (p : Addr)
          → deleted.length p ≡ (if p == q then pred_ℤ (s.length q) else s.length p) =
        λ p. ground (arith, is.live) in
      (
        ground (arith, is.live),
        removed s q sen n xs ys is deleted deleted_next deleted_prev ws wl,
        removed-Frame s q sen n xs ys is deleted deleted_next deleted_prev ws wl,
      )

module _ {s : Store} {q sen : Addr} where
  -- On an empty queue `queue_dequeue` returns -1, writes NULL to `*item` if there is one, and
  -- changes nothing.
  pub queue_dequeue-nil :
      (has_item : Bool)
      → IsQueue s q sen []
      → queue_dequeue q has_item s
        ≡ (record { status = failure; item = if has_item then some null else none }, s)
  unfolding queue_dequeue
  queue_dequeue-nil has_item is = ground (arith, is.live, is.count)

  module _ (has_item : Bool) {x : Addr} {xs : List Addr} (is : IsQueue s q sen (x ∷ xs)) where
    abbrev dequeued : Store
    dequeued = (queue_dequeue q has_item s).1

    dequeue_head : s.next (s.sentinal q) ≡ x
    dequeue_head = rw is.at (next-first s.next s.prev sen sen (x ∷ xs) is.ring)

    dequeue_lem :
        ((queue_dequeue q has_item s).0 ≡ record { status = success; item = some x })
        × ((p : Addr) → dequeued.next p ≡ (if p == sen then first_of_list xs sen else s.next p))
        × ((p : Addr) → dequeued.prev p ≡ (if p == first_of_list xs sen then sen else s.prev p))
        × ((p : Addr) → dequeued.sentinal p ≡ s.sentinal p)
        × ((p : Addr) → dequeued.length p ≡ (if p == q then pred_ℤ (s.length q) else s.length p))
    unfolding queue_dequeue
    dequeue_lem =
        let near = Ring-neighbours s.next s.prev sen sen x [] xs is.ring in
        (
          ground (arith, is.live, is.count, dequeue_head),
          λ p. ground (arith, is.live, is.count, dequeue_head, near),
          λ p. ground (arith, is.live, is.count, dequeue_head, near),
          λ p. ground (arith, is.live, is.count),
          λ p. ground (arith, is.live, is.count),
        )

    -- On a queue that holds nodes `queue_dequeue` returns 0, hands out the first and takes it
    -- out; it changes nothing but the other nodes of the queue and its length.
    pub queue_dequeue-IsQueue :
        ((queue_dequeue q has_item s).0 ≡ record { status = success; item = some x })
        × IsQueue (queue_dequeue q has_item s).1 q sen xs
        × Frame (sen ∷ xs) q s (queue_dequeue q has_item s).1
    queue_dequeue-IsQueue =
        let (reply, wn, wp, ws, wl) = dequeue_lem in
        (
          reply,
          removed s q sen x [] xs is dequeued wn wp ws wl,
          removed-Frame s q sen x [] xs is dequeued wn wp ws wl,
        )
