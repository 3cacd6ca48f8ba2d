-- ===== src/Queue/Grow.antt =====
-- A new queue among those of a store, and a node that is written but on no queue.
use rpiosv.Base.{
  ◌≡◌, ◌≢◌, refl, sym, subst, ◌∙◌, true, false, some, List, [], ◌∷◌, Bool, ◌==◌, Addr, null, arith,
  has, update, Bool-cases, inl, inr,
}
use rpiosv.Memory.{Machine, salloc}
use rpiosv.Queue.{Store, queue_new, queue_size, node_size, set_next, set_prev}
use rpiosv.Queue.Ring.{Ring-frame}
use rpiosv.Queue.State.{IsQueue}
use rpiosv.Queue.New.{queue_new-IsQueue}
use rpiosv.Queue.Family.{Contents, nodes, Queues, Free}

-- A queue of which neither a node nor the fields were written.
IsQueue-kept :
    (s t : Store) (r : Addr) (xs : List Addr)
    → IsQueue s r (s.sentinal r) xs
    → ((p : Addr)
        → has p (s.sentinal r ∷ xs) ≡ true
        → (t.next p ≡ s.next p) × (t.prev p ≡ s.prev p))
    → t.sentinal r ≡ s.sentinal r
    → t.length r ≡ s.length r
    → IsQueue t r (t.sentinal r) xs
IsQueue-kept s t r xs is links same count = rw same record {
  live = is.live;
  at = same;
  count = count ∙ is.count;
  ring =
      Ring-frame s.next s.prev t.next t.prev (s.sentinal r) (s.sentinal r) xs is.ring
        (λ p h. (links p h).0) (λ p h. (links p h).1);
  distinct = is.distinct;
  real = is.real;
}

-- A node of a queue is not a free one.
on_queue : (n p : Addr) (xs : List Addr) → has n xs ≡ false → has p xs ≡ true → p ≢ n
on_queue n p xs out on e = ground (arith, out, on, e)

module _ {live : Addr → Bool} {s : Store} {c : Contents} (qs : Queues live s c) where
  -- A free node may be written.
  pub linked-Queues :
      (n a b : Addr) → Free live s c n → Queues live (set_next n a (set_prev n b s)) c
  linked-Queues n a b free = record {
    each = λ r on.
        IsQueue-kept s (set_next n a (set_prev n b s)) r (c r) (qs.each r on)
          (λ p h.
            let ne = on_queue n p (nodes s c r) (free r on) h in
            let other : (p == n) ≡ false = ground (arith, ne) in (rw other refl, rw other refl))
          refl refl;
    apart = qs.apart;
  }

  -- What a new queue changes.
  pub record Grown (q sen : Addr) (t : Store) : Type 0 where
    pub queues : Queues (update live q true) t c
    pub own : t.sentinal q ≡ sen
    pub same : (p : Addr) → p ≢ q → t.sentinal p ≡ s.sentinal p

  -- A queue that is made at an address where there was none, with a node that was free as its
  -- sentinel, is well formed and empty, and no other queue changes.
  pub queue_new-Queues :
      (m m1 m2 : Machine) (q sen : Addr)
      → salloc queue_size m ≡ some (q, m1)
      → salloc node_size m1 ≡ some (sen, m2)
      → q ≢ null
      → sen ≢ null
      → live q ≡ false
      → Free live s c sen
      → c q ≡ []
      → (t : Store) × (queue_new m s ≡ some (q, m2, t)) × Grown q sen t
  queue_new-Queues m m1 m2 q sen e f q_real sen_real fresh free none =
      let (t, new, is, links, fields) = queue_new-IsQueue m m1 m2 s q sen e f q_real sen_real in
      let lives : (r : Addr) → update live q true r ≡ true → (r == q) ≡ false → live r ≡ true =
        λ r on ne. ground (arith, on, ne) in
      let off : (r : Addr) → (r == q) ≡ false → t.sentinal r ≡ s.sentinal r =
        λ r ne. (fields r (ground (arith, ne))).0 in
      (
        t,
        new,
        record {
          queues = record {
            each = λ r on. elim (Bool-cases (r == q)) [
              | inl h ↦ let same : r ≡ q = ground (arith, h) in rw (same, is.at, none) is
              | inr h ↦
                  IsQueue-kept s t r (c r) (qs.each r (lives r on h))
                    (λ p on_r. links p (on_queue sen p (nodes s c r) (free r (lives r on h)) on_r))
                    (off r h) (fields r (ground (arith, h))).1
            ];
            apart = λ a b ona onb ne p h. elim (Bool-cases (a == q)) [
              | inl ea ↦
                  let same : a ≡ q = ground (arith, ea) in
                  let eb : (b == q) ≡ false = ground (arith, ne, same) in
                  let h' : has p (nodes s c b) ≡ true = rw (off b eb) at h in
                  let other = on_queue sen p (nodes s c b) (free b (lives b onb eb)) h' in
                  rw (same, is.at, none) (ground (arith, other))
              | inr ea ↦ elim (Bool-cases (b == q)) [
                | inl eb ↦
                    let same : b ≡ q = ground (arith, eb) in
                    let h' : has p (sen ∷ []) ≡ true = rw (same, is.at, none) at h in
                    let at : p ≡ sen = ground (arith, h') in
                    subst (λ x. has x (nodes t c a) ≡ false) (sym at)
                      (rw (off a ea) (free a (lives a ona ea)))
                | inr eb ↦
                    let h' : has p (nodes s c b) ≡ true = rw (off b eb) at h in
                    rw (off a ea) (qs.apart a b (lives a ona ea) (lives b onb eb) ne p h')
              ]
            ];
          };
          own = is.at;
          same = λ p ne. (fields p ne).0;
        },
      )

  -- A node that is free stays so when it is not the new sentinel.
  pub Grown-Free :
      {q sen : Addr} {t : Store}
      → Grown q sen t
      → c q ≡ []
      → (n : Addr) → n ≢ sen
      → Free live s c n
      → Free (update live q true) t c n
  Grown-Free {q} g none n ne free r on = elim (Bool-cases (r == q)) [
    | inl h ↦ let same : r ≡ q = ground (arith, h) in rw (same, g.own, none) (ground (arith, ne))
    | inr h ↦
        let on' : live r ≡ true = ground (arith, on, h) in
        rw (g.same r (ground (arith, h))) (free r on')
  ]
