-- ===== src/Queue/Insert.antt =====
-- `queue_append` and `queue_prepend` insert a node at one of the ends.
use rpiosv.Base.{
  ◌≡◌, ◌≢◌, ap, ◌∙◌, true, false, List, [], ◌∷◌, ◌++◌, append-nil, ◌==◌, if◌then◌else◌, Addr, null,
  arith, length-append, has, has-append, Distinct,
}
use rpiosv.Base.Int.{pos, succ_ℤ}
use rpiosv.Queue.{Store, success, queue_append, queue_prepend}
use rpiosv.Queue.Ring.{Ring-insert, last_of, first_of_list, next-first, prev-last}
use rpiosv.Queue.State.{IsQueue, Frame}

Distinct-insert :
    (n : Addr) (xs ys : List Addr)
    → Distinct (xs ++ ys)
    → has n (xs ++ ys) ≡ false
    → Distinct (xs ++ n ∷ ys)
Distinct-insert n [] ys d o = (o, d)
Distinct-insert n (x ∷ xs) ys d o = (
  ground (arith, has-append x xs ys, has-append x xs (n ∷ ys)),
  Distinct-insert n xs ys d.1 (ground arith),
)

-- The maps after the four assignments of an insertion between `sen ∷ xs` and `ys`.
module _ (s : Store) (q sen n : Addr) (xs ys : List Addr) (is : IsQueue s q sen (xs ++ ys))
    (out : has n (sen ∷ (xs ++ ys)) ≡ false) (real : n ≢ null) (t : Store)
    (wn : (p : Addr)
      → t.next p
        ≡ (if p == last_of sen xs then n else if p == n then first_of_list ys sen else s.next p))
    (wp : (p : Addr)
      → t.prev p
        ≡ (if p == first_of_list ys sen then n else if p == n then last_of sen xs else s.prev p))
    (ws : (p : Addr) → t.sentinal p ≡ s.sentinal p) (wl : t.length q ≡ succ_ℤ (s.length q)) where
  pub inserted : IsQueue t q sen (xs ++ n ∷ ys)
  inserted = record {
    live = is.live;
    at = ws q ∙ is.at;
    count =
        wl
        ∙ ap succ_ℤ is.count
        ∙ ap pos (omega (arith, length-append xs ys, length-append xs (n ∷ ys)));
    ring =
        Ring-insert s.next s.prev t.next t.prev sen sen n xs ys is.ring is.distinct is.distinct.0
          out (ground arith) wn wp;
    distinct = Distinct-insert n (sen ∷ xs) ys is.distinct out;
    real = ground (arith, is.real, has-append null xs ys, has-append null xs (n ∷ ys));
  }

pub has-last_of : (a : Addr) (xs : List Addr) → has (last_of a xs) (a ∷ xs) ≡ true
has-last_of a [] = ground arith
has-last_of a (x ∷ xs) = ground (arith, has-last_of x xs)

pub has-first_of_list : (xs : List Addr) (b : Addr) → has (first_of_list xs b) (b ∷ xs) ≡ true
has-first_of_list [] b = ground arith
has-first_of_list (x ∷ xs) b = ground arith

module _ {s : Store} {q sen : Addr} {xs : List Addr} (is : IsQueue s q sen xs) (n : Addr)
    (out : has n (sen ∷ xs) ≡ false) (real : n ≢ null) where
  abbrev appended : Store
  appended = (queue_append q n s).1

  append_tail : s.prev (s.sentinal q) ≡ last_of sen xs
  append_tail = rw is.at (prev-last s.next s.prev sen sen xs is.ring)

  append_next :
      (p : Addr)
      → appended.next p ≡ (if p == last_of sen xs then n else if p == n then sen else s.next p)
  unfolding queue_append
  append_next p = ground (arith, is.live, is.at, append_tail)

  append_prev :
      (p : Addr)
      → appended.prev p ≡ (if p == sen then n else if p == n then last_of sen xs else s.prev p)
  unfolding queue_append
  append_prev p = ground (arith, is.live, is.at, append_tail)

  append_length : appended.length q ≡ succ_ℤ (s.length q)
  unfolding queue_append
  append_length = ground (arith, is.live)

  append_sentinal : (p : Addr) → appended.sentinal p ≡ s.sentinal p
  unfolding queue_append
  append_sentinal p = ground (arith, is.live)

  append-Frame : Frame (n ∷ sen ∷ xs) q s appended
  append-Frame = record {
    same_next = λ p h. ground (arith, append_next p, has-last_of sen xs);
    same_prev = λ p h. ground (arith, append_prev p);
    same_sentinal = append_sentinal;
    same_length = λ p h. unfold queue_append in ground (arith, is.live);
  }

  -- `queue_append` of a node that is not on the queue returns 0 and puts the node last; it changes
  -- nothing but that node, the nodes of the queue and its length.
  pub queue_append-IsQueue :
      ((queue_append q n s).0 ≡ success)
      × IsQueue (queue_append q n s).1 q sen (xs ++ n ∷ [])
      × Frame (n ∷ sen ∷ xs) q s (queue_append q n s).1
  queue_append-IsQueue =
      let old : IsQueue s q sen (xs ++ []) = rw append-nil is in
      let out' : has n (sen ∷ (xs ++ [])) ≡ false = rw append-nil out in
      (
        unfold queue_append in ground (arith, is.live),
        inserted s q sen n xs [] old out' real appended append_next append_prev append_sentinal
            append_length,
        append-Frame,
      )

  abbrev prepended : Store
  prepended = (queue_prepend q n s).1

  prepend_head : s.next (s.sentinal q) ≡ first_of_list xs sen
  prepend_head = rw is.at (next-first s.next s.prev sen sen xs is.ring)

  prepend_next :
      (p : Addr)
      → prepended.next p
        ≡ (if p == sen then n else if p == n then first_of_list xs sen else s.next p)
  unfolding queue_prepend
  prepend_next p = ground (arith, is.live, is.at, prepend_head, has-first_of_list xs sen)

  prepend_prev :
      (p : Addr)
      → prepended.prev p
        ≡ (if p == first_of_list xs sen then n else if p == n then sen else s.prev p)
  unfolding queue_prepend
  prepend_prev p = ground (arith, is.live, is.at, prepend_head, has-first_of_list xs sen)

  prepend-Frame : Frame (n ∷ sen ∷ xs) q s prepended
  prepend-Frame = record {
    same_next = λ p h. ground (arith, prepend_next p);
    same_prev = λ p h. ground (arith, prepend_prev p, has-first_of_list xs sen);
    same_sentinal = λ p. unfold queue_prepend in ground (arith, is.live);
    same_length = λ p h. unfold queue_prepend in ground (arith, is.live);
  }

  -- `queue_prepend` of a node that is not on the queue returns 0 and puts the node first; it
  -- changes nothing but that node, the nodes of the queue and its length.
  pub queue_prepend-IsQueue :
      ((queue_prepend q n s).0 ≡ success)
      × IsQueue (queue_prepend q n s).1 q sen (n ∷ xs)
      × Frame (n ∷ sen ∷ xs) q s (queue_prepend q n s).1
  queue_prepend-IsQueue = (
    unfold queue_prepend in ground (arith, is.live),
    inserted s q sen n [] xs is out real prepended prepend_next prepend_prev
        (λ p. prepend-Frame.same_sentinal p) (unfold queue_prepend in ground (arith, is.live)),
    prepend-Frame,
  )
