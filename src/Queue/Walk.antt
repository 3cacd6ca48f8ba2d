-- ===== src/Queue/Walk.antt =====
-- `queue_find`, `queue_delete` and `queue_iterate` walk along the queue.
use rpiosv.Base.{
  ℕ, zero, suc, ◌<◌, ◌≡◌, ◌≢◌, refl, ap, ◌∙◌, true, false, Option, none, some, List, [], ◌∷◌, ◌++◌,
  Bool, ◌==◌, if◌then◌else◌, Addr, null, arith, length, has, has-append, Distinct,
}
use rpiosv.Queue.{
  Store, success, failure, queue_find, find_loop, queue_delete, delete_loop, queue_delete_fast,
  queue_iterate, iterate_loop, Reply,
}
use rpiosv.Queue.Ring.{Ring}
use rpiosv.Queue.State.{IsQueue}

-- The first node that passes the test.
unfoldable pub find_first : (Addr → Bool) → List Addr → Option Addr
find_first f [] = none
find_first f (x ∷ xs) = if f x then some x else find_first f xs

-- What `queue_find` answers; it writes NULL to `*item` where it finds nothing.
abbrev pub found_reply : Option Addr → Reply
found_reply none = record { status = failure; item = some null }
found_reply (some x) = record { status = success; item = some x }

find_loop-first :
    (fuel : ℕ) (f : Addr → Bool) (sen a : Addr) (xs : List Addr) (s : Store)
    → Ring s.next s.prev a xs sen
    → has sen xs ≡ false
    → length xs < fuel
    → find_loop fuel f sen (s.next a) s ≡ some (found_reply (find_first f xs))
unfolding find_loop find_first
find_loop-first zero f sen a xs s r o h = absurd (omega arith)
find_loop-first (suc fuel) f sen a [] s r o h = ground arith
find_loop-first (suc fuel) f sen a (x ∷ xs) s r o h =
    rw r.0 (ground (arith, find_loop-first fuel f sen x xs s r.2 (ground arith) (omega arith)))

delete_loop-absent :
    (fuel : ℕ) (q sen item a : Addr) (xs : List Addr) (s : Store)
    → s.sentinal q ≡ sen
    → Ring s.next s.prev a xs sen
    → has sen xs ≡ false
    → has item xs ≡ false
    → length xs < fuel
    → delete_loop fuel q item (s.next a) s ≡ some (failure, s)
unfolding delete_loop
delete_loop-absent zero q sen item a xs s at r o i h = absurd (omega arith)
delete_loop-absent (suc fuel) q sen item a [] s at r o i h = ground arith
delete_loop-absent (suc fuel) q sen item a (x ∷ xs) s at r o i h =
    let rest =
      delete_loop-absent fuel q sen item x xs s at r.2 (ground arith) (ground arith)
        (omega arith) in
    rw (r.0, at) (ground (arith, rest))

delete_loop-present :
    (fuel : ℕ) (q sen item a : Addr) (xs ys : List Addr) (s : Store)
    → q ≢ null
    → s.sentinal q ≡ sen
    → Ring s.next s.prev a (xs ++ item ∷ ys) sen
    → has sen (xs ++ item ∷ ys) ≡ false
    → has item xs ≡ false
    → length xs < fuel
    → delete_loop fuel q item (s.next a) s ≡ some (queue_delete_fast q item s)
unfolding delete_loop queue_delete_fast
delete_loop-present zero q sen item a xs ys s live at r o i h = absurd (omega arith)
delete_loop-present (suc fuel) q sen item a [] ys s live at r o i h =
    let other : (item == sen) ≡ false = ground arith in
    let same : (item == item) ≡ true = ground arith in
    let live' : (q == null) ≡ false = ground arith in rw (r.0, at, other, same, live')
delete_loop-present (suc fuel) q sen item a (x ∷ xs) ys s live at r o i h =
    let rest =
      delete_loop-present fuel q sen item x xs ys s live at r.2 (ground arith) (ground arith)
        (omega arith) in
    let other : (x == sen) ≡ false = ground arith in
    let other' : (x == item) ≡ false = ground arith in rw (r.0, at, other, other') rest

Distinct-before : (n : Addr) (xs ys : List Addr) → Distinct (xs ++ n ∷ ys) → has n xs ≡ false
Distinct-before n [] ys d = refl
Distinct-before n (x ∷ xs) ys d =
    ground (arith, Distinct-before n xs ys d.1, has-append x xs (n ∷ ys), d.0)

module _ {s : Store} {q sen : Addr} where
  -- `queue_find` with fuel for the queue returns, changes nothing, and hands out the first node
  -- that passes the test; with none it returns -1 and writes NULL.
  pub queue_find-first :
      (fuel : ℕ) (f : Addr → Bool) {xs : List Addr}
      → IsQueue s q sen xs
      → length xs < fuel
      → queue_find fuel q f true s ≡ some (found_reply (find_first f xs))
  unfolding queue_find
  queue_find-first fuel f {xs} is h =
      let loop = find_loop-first fuel f sen sen xs s is.ring is.distinct.0 h in
      ground (arith, is.live, is.at, loop)

  -- `queue_delete` of a node on the queue does what `queue_delete_fast` does.
  pub queue_delete-fast :
      (fuel : ℕ) (n : Addr) (xs ys : List Addr)
      → IsQueue s q sen (xs ++ n ∷ ys)
      → length xs < fuel
      → queue_delete fuel q n s ≡ some (queue_delete_fast q n s)
  unfolding queue_delete
  queue_delete-fast fuel n xs ys is h =
      let live : (q == null) ≡ false = ground (arith, is.live) in
      let first : s.next (s.sentinal q) ≡ s.next sen = ap s.next is.at in
      rw (live, first)
        (delete_loop-present fuel q sen n sen xs ys s is.live is.at is.ring is.distinct.0
          (Distinct-before n xs ys is.distinct.1) h)

  -- `queue_delete` of a node that is not on the queue returns -1 and changes nothing.
  pub queue_delete-absent :
      (fuel : ℕ) (n : Addr) {xs : List Addr}
      → IsQueue s q sen xs
      → has n xs ≡ false
      → length xs < fuel
      → queue_delete fuel q n s ≡ some (failure, s)
  unfolding queue_delete
  queue_delete-absent fuel n {xs} is o h =
      let live : (q == null) ≡ false = ground (arith, is.live) in
      let first : s.next (s.sentinal q) ≡ s.next sen = ap s.next is.at in
      rw (live, first) (delete_loop-absent fuel q sen n sen xs s is.at is.ring is.distinct.0 o h)

-- `f` at each node in turn.
pub visit {ℓ} : {W : Type ℓ} → (Addr → Store × W → Store × W) → List Addr → Store × W → Store × W
visit f [] w = w
visit f (x ∷ xs) w = visit f xs (f x w)

abbrev Leads : (Addr → Addr) → Addr → List Addr → Addr → Type 0
Leads next a [] b = next a ≡ b
Leads next a (x ∷ xs) b = (next a ≡ x) × Leads next x xs b

Ring-Leads :
    (next prev : Addr → Addr) (a b : Addr) (xs : List Addr)
    → Ring next prev a xs b
    → Leads next a xs b
Ring-Leads next prev a b [] r = r.0
Ring-Leads next prev a b (x ∷ xs) r = (r.0, Ring-Leads next prev x b xs r.2)

module _ {ℓ} {W : Type ℓ} (f : Addr → Store × W → Store × W)
    (same_next : (c : Addr) (w : Store × W) (p : Addr) → (f c w).0.next p ≡ w.0.next p)
    (same_sentinal : (c : Addr) (w : Store × W) (p : Addr)
      → (f c w).0.sentinal p ≡ w.0.sentinal p) where
  iterate_loop-visit :
      (fuel : ℕ) (q sen a : Addr) (xs : List Addr) (next : Addr → Addr) (w : Store × W)
      → ((p : Addr) → w.0.next p ≡ next p)
      → w.0.sentinal q ≡ sen
      → Leads next a xs sen
      → has sen xs ≡ false
      → length xs < fuel
      → iterate_loop f fuel q (next a) w ≡ some (visit f xs w)
  unfolding iterate_loop visit
  iterate_loop-visit zero q sen a xs next w nx at r o h = absurd (omega arith)
  iterate_loop-visit (suc fuel) q sen a [] next w nx at r o h =
      let here : (sen == sen) ≡ true = ground arith in rw (r, at, here)
  iterate_loop-visit (suc fuel) q sen a (x ∷ xs) next w nx at r o h =
      let other : (x == sen) ≡ false = ground arith in
      let rest =
        iterate_loop-visit fuel q sen x xs next (f x w) (λ p. same_next x w p ∙ nx p)
          (same_sentinal x w q ∙ at) r.1 (ground arith) (omega arith) in
      let step : (f x w).0.next x ≡ next x = same_next x w x ∙ nx x in
      rw (r.0, at, other, step) rest

  -- `queue_iterate` with fuel for the queue returns 0 and calls `f` at each node, first to last, for
  -- an `f` that changes no `next` pointer and no sentinel.
  pub queue_iterate-visit :
      (fuel : ℕ) {q sen : Addr} (xs : List Addr) (w : Store × W)
      → IsQueue w.0 q sen xs
      → length xs < fuel
      → queue_iterate fuel q f w ≡ some (success, visit f xs w)
  unfolding queue_iterate
  queue_iterate-visit fuel {q} {sen} xs w is h =
      let live : (q == null) ≡ false = ground (arith, is.live) in
      let first : w.0.next (w.0.sentinal q) ≡ w.0.next sen = ap w.0.next is.at in
      let loop =
        iterate_loop-visit fuel q sen sen xs w.0.next w (λ p. refl) is.at
          (Ring-Leads w.0.next w.0.prev sen sen xs is.ring) is.distinct.0 h in
      rw (live, first, loop)
