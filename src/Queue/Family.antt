-- ===== src/Queue/Family.antt =====
-- Many queues in one store, no two of which share a node.
use rpiosv.Base.{
  ◌≡◌, ◌≢◌, sym, subst, ◌∙◌, true, false, some, List, [], ◌∷◌, ◌++◌, Bool, ◌==◌, Addr, null, arith,
  has, has-append, Distinct, update, Bool-cases, inl, inr,
}
use rpiosv.Queue.{Store, success, queue_append, queue_dequeue, queue_delete_fast}
use rpiosv.Queue.State.{IsQueue, Frame, Away, IsQueue-Frame}
use rpiosv.Queue.Insert.{queue_append-IsQueue}
use rpiosv.Queue.Remove.{queue_dequeue-IsQueue, queue_delete_fast-IsQueue}

-- What each queue holds, by its address.
abbrev pub Contents : Type 0
Contents = Addr → List Addr

-- The sentinel and the nodes of the queue `q`.
abbrev pub nodes : Store → Contents → Addr → List Addr
nodes s c q = s.sentinal q ∷ c q

-- The queues for which `live` holds are well formed, and no two have a node in common.
pub record Queues (live : Addr → Bool) (s : Store) (c : Contents) : Type 0 where
  pub each : (q : Addr) → live q ≡ true → IsQueue s q (s.sentinal q) (c q)
  pub apart :
      (q r : Addr) → live q ≡ true → live r ≡ true → q ≢ r → Away (nodes s c q) (nodes s c r)

-- `n` is on no queue, and is no sentinel.
abbrev pub Free : (Addr → Bool) → Store → Contents → Addr → Type 0
Free live s c n = (q : Addr) → live q ≡ true → has n (nodes s c q) ≡ false

Away-mem : (n : Addr) (xs ys : List Addr) → Away xs ys → has n xs ≡ true → has n ys ≡ false
Away-mem n xs ys h i = elim (Bool-cases (has n ys)) [ inl e ↦ ground (arith, h n e) | inr e ↦ e ]

Away-sym : (xs ys : List Addr) → Away xs ys → Away ys xs
Away-sym xs ys h p i = Away-mem p xs ys h i

Distinct-middle :
    (n a : Addr) (xs ys : List Addr)
    → Distinct (a ∷ (xs ++ n ∷ ys))
    → has n (a ∷ (xs ++ ys)) ≡ false
Distinct-middle n a [] ys d = ground (arith, d.0, d.1.0)
Distinct-middle n a (x ∷ xs) ys d =
    ground (arith, d.0, has-append a xs (n ∷ ys), Distinct-middle n x xs ys d.1, has-append n xs ys)

module _ {live : Addr → Bool} {s : Store} {c : Contents} (qs : Queues live s c) (q : Addr)
    (on : live q ≡ true) where
  -- An operation on `q` that touches nodes of `q` and a free node at most.
  module _ (t : Store) (xs : List Addr) (ns : List Addr) (f : Frame ns q s t)
      (is : IsQueue t q (s.sentinal q) xs)
      (far : (r : Addr) → live r ≡ true → q ≢ r → Away ns (nodes s c r))
      (far' : (r : Addr) → live r ≡ true → q ≢ r → Away (s.sentinal q ∷ xs) (nodes s c r)) where
    other : (r : Addr) → live r ≡ true → q ≢ r → IsQueue t r (t.sentinal r) (c r)
    other r on' ne = rw (f.same_sentinal r) (IsQueue-Frame f ne (far r on' ne) (qs.each r on'))

    changed : Queues live t (update c q xs)
    changed = record {
      each = λ r on'. elim (Bool-cases (r == q)) [
        | inl e ↦ let same : r ≡ q = ground arith in rw (e, same, f.same_sentinal q) is
        | inr e ↦ rw e (other r on' (ground arith))
      ];
      apart = λ a b ona onb ne p h. elim (Bool-cases (a == q)) [
        | inl ea ↦
            let eq_a : a ≡ q = ground arith in
            let nb : q ≢ b = λ e. ne (eq_a ∙ e) in
            let eb : (b == q) ≡ false = ground arith in
            let h' = rw (eb, f.same_sentinal b) at h in
            rw (f.same_sentinal a, ea, eq_a) (far' b onb nb p h')
        | inr ea ↦ elim (Bool-cases (b == q)) [
          | inl eb ↦
              let eq_b : b ≡ q = ground arith in
              let na : q ≢ a = λ e. ne (sym e ∙ sym eq_b) in
              let h' : has p (s.sentinal q ∷ xs) ≡ true = rw (f.same_sentinal b, eb, eq_b) at h in
              rw (f.same_sentinal a, ea)
                (Away-sym (s.sentinal q ∷ xs) (nodes s c a) (far' a ona na) p h')
          | inr eb ↦
              let h' : has p (nodes s c b) ≡ true = rw (f.same_sentinal b, eb) at h in
              rw (f.same_sentinal a, ea) (qs.apart a b ona onb ne p h')
        ]
      ];
    }

    -- A node that was taken out is free.
    freed :
        (n : Addr)
        → has n (s.sentinal q ∷ xs) ≡ false
        → ((r : Addr) → live r ≡ true → q ≢ r → has n (nodes s c r) ≡ false)
        → Free live t (update c q xs) n
    freed n out away r onr = elim (Bool-cases (r == q)) [
      | inl e ↦ let same : r ≡ q = ground arith in rw (f.same_sentinal r, e, same) out
      | inr e ↦ let ne : q ≢ r = ground arith in rw (f.same_sentinal r, e) (away r onr ne)
    ]

  -- A free node goes last on `q`.
  pub queue_append-Queues :
      (n : Addr)
      → n ≢ null
      → Free live s c n
      → Queues live (queue_append q n s).1 (update c q (c q ++ n ∷ []))
        × ((r : Addr) → (queue_append q n s).1.sentinal r ≡ s.sentinal r)
  queue_append-Queues n real free =
      let (_, is, f) = queue_append-IsQueue (qs.each q on) n (free q on) real in
      (
        changed (queue_append q n s).1 (c q ++ n ∷ []) (n ∷ nodes s c q) f is
            (λ r onr ne p h. ground (arith, free r onr, qs.apart q r on onr ne p))
            (λ r onr ne p h.
              ground (arith, free r onr, qs.apart q r on onr ne p, has-append p (c q) (n ∷ []))),
        f.same_sentinal,
      )

  -- The first node of `q` is handed out, and is free afterwards.
  pub queue_dequeue-Queues :
      (x : Addr) (xs : List Addr)
      → c q ≡ x ∷ xs
      → ((queue_dequeue q true s).0 ≡ record { status = success; item = some x })
        × Queues live (queue_dequeue q true s).1 (update c q xs)
        × Free live (queue_dequeue q true s).1 (update c q xs) x
        × ((r : Addr) → (queue_dequeue q true s).1.sentinal r ≡ s.sentinal r)
  queue_dequeue-Queues x xs e =
      let old : IsQueue s q (s.sentinal q) (x ∷ xs) =
        subst (λ ys. IsQueue s q (s.sentinal q) ys) e (qs.each q on) in
      let (reply, is, f) = queue_dequeue-IsQueue true old in
      let apart = λ (r : Addr) (onr : live r ≡ true) (ne : q ≢ r).
        subst (λ ys. Away (s.sentinal q ∷ ys) (nodes s c r)) e (qs.apart q r on onr ne) in
      let far : (r : Addr) → live r ≡ true → q ≢ r → Away (s.sentinal q ∷ xs) (nodes s c r) =
        λ r onr ne p h. ground (arith, apart r onr ne p) in
      (
        reply,
        changed (queue_dequeue q true s).1 xs (s.sentinal q ∷ xs) f is far far,
        freed (queue_dequeue q true s).1 xs (s.sentinal q ∷ xs) f is far far x
            (ground (arith, old.distinct.0, old.distinct.1.0))
            (λ r onr ne.
              Away-mem x (s.sentinal q ∷ x ∷ xs) (nodes s c r) (apart r onr ne) (ground arith)),
        f.same_sentinal,
      )

  -- A node is taken from the middle of `q`, and is free afterwards.
  pub queue_delete_fast-Queues :
      (n : Addr) (xs ys : List Addr)
      → c q ≡ xs ++ n ∷ ys
      → Queues live (queue_delete_fast q n s).1 (update c q (xs ++ ys))
        × Free live (queue_delete_fast q n s).1 (update c q (xs ++ ys)) n
        × ((r : Addr) → (queue_delete_fast q n s).1.sentinal r ≡ s.sentinal r)
  queue_delete_fast-Queues n xs ys e =
      let old : IsQueue s q (s.sentinal q) (xs ++ n ∷ ys) =
        subst (λ zs. IsQueue s q (s.sentinal q) zs) e (qs.each q on) in
      let (_, is, f) = queue_delete_fast-IsQueue n xs ys old in
      let apart = λ (r : Addr) (onr : live r ≡ true) (ne : q ≢ r).
        subst (λ zs. Away (s.sentinal q ∷ zs) (nodes s c r)) e (qs.apart q r on onr ne) in
      let far : (r : Addr)
          → live r ≡ true
          → q ≢ r
          → Away (s.sentinal q ∷ (xs ++ ys)) (nodes s c r) =
        λ r onr ne p h.
          ground (arith, apart r onr ne p, has-append p xs ys, has-append p xs (n ∷ ys)) in
      let t = (queue_delete_fast q n s).1 in
      (
        changed t (xs ++ ys) (s.sentinal q ∷ (xs ++ ys)) f is far far,
        freed t (xs ++ ys) (s.sentinal q ∷ (xs ++ ys)) f is far far n
            (Distinct-middle n (s.sentinal q) xs ys old.distinct)
            (λ r onr ne.
              Away-mem n (s.sentinal q ∷ (xs ++ n ∷ ys)) (nodes s c r) (apart r onr ne)
                (ground (arith, has-append n xs (n ∷ ys)))),
        f.same_sentinal,
      )
