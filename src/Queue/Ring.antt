-- ===== src/Queue/Ring.antt =====
-- Doubly linked segments over two maps, `next` and `prev`: what an insertion and a removal do to
-- one, and what leaves it alone.
use rpiosv.Base.{
  ◌≡◌, ◌≢◌, true, false, List, [], ◌∷◌, ◌++◌, ◌==◌, if◌then◌else◌, Addr, arith, has, has-append,
  Distinct,
}

-- From `a` the `next` pointers lead through `xs` to `b`, and the `prev` pointers lead back.
abbrev pub Ring : (next prev : Addr → Addr) → Addr → List Addr → Addr → Type 0
Ring next prev a [] b = (next a ≡ b) × (prev b ≡ a)
Ring next prev a (x ∷ xs) b = (next a ≡ x) × (prev x ≡ a) × Ring next prev x xs b

-- The node before the end, and the node after the start.
abbrev pub last_of : Addr → List Addr → Addr
last_of a [] = a
last_of a (x ∷ xs) = last_of x xs

abbrev pub first_of_list : List Addr → Addr → Addr
first_of_list [] b = b
first_of_list (x ∷ xs) b = x

module _ (next prev : Addr → Addr) where
  pub next-last : (a b : Addr) (xs : List Addr) → Ring next prev a xs b → next (last_of a xs) ≡ b
  next-last a b [] r = r.0
  next-last a b (x ∷ xs) r = next-last x b xs r.2

  pub prev-last : (a b : Addr) (xs : List Addr) → Ring next prev a xs b → prev b ≡ last_of a xs
  prev-last a b [] r = r.1
  prev-last a b (x ∷ xs) r = prev-last x b xs r.2

  pub next-first :
      (a b : Addr) (xs : List Addr) → Ring next prev a xs b → next a ≡ first_of_list xs b
  next-first a b [] r = r.0
  next-first a b (x ∷ xs) r = r.0

  pub prev-first :
      (a b : Addr) (xs : List Addr) → Ring next prev a xs b → prev (first_of_list xs b) ≡ a
  prev-first a b [] r = r.1
  prev-first a b (x ∷ xs) r = r.1

-- A segment survives any change of `next` outside `a ∷ xs` and of `prev` outside `xs` and `b`.
pub Ring-frame :
    (next prev next' prev' : Addr → Addr) (a b : Addr) (xs : List Addr)
    → Ring next prev a xs b
    → ((p : Addr) → has p (a ∷ xs) ≡ true → next' p ≡ next p)
    → ((p : Addr) → has p (b ∷ xs) ≡ true → prev' p ≡ prev p)
    → Ring next' prev' a xs b
Ring-frame next prev next' prev' a b [] r n p = (ground (arith, n a), ground (arith, p b))
Ring-frame next prev next' prev' a b (x ∷ xs) r n p = (
  ground (arith, n a),
  ground (arith, p x),
  Ring-frame next prev next' prev' x b xs r.2 (λ y h. n y (ground arith))
      (λ y h. p y (ground arith)),
)

has-last : (a : Addr) (xs : List Addr) → has (last_of a xs) (a ∷ xs) ≡ true
has-last a [] = ground arith
has-last a (x ∷ xs) = ground (arith, has-last x xs)

last_ne : (x a : Addr) (xs ys : List Addr) → has x (a ∷ (xs ++ ys)) ≡ false → x ≢ last_of a xs
last_ne x a xs ys h e = ground (arith, has-last a xs, has-append x xs ys)

first_ne :
    (x b : Addr) (xs ys : List Addr) → has x (xs ++ ys) ≡ false → x ≢ b → x ≢ first_of_list ys b
first_ne x b xs [] h ne e = ne e
first_ne x b xs (y ∷ ys) h ne e = ground (arith, has-append x xs (y ∷ ys))

later_ne :
    (x b n : Addr) (xs ys : List Addr)
    → has x (xs ++ n ∷ ys) ≡ false
    → x ≢ b
    → x ≢ first_of_list ys b
later_ne x b n xs [] h ne e = ne e
later_ne x b n xs (y ∷ ys) h ne e = ground (arith, has-append x xs (n ∷ y ∷ ys))

-- The writes that put `n` between `xs` and `ys`.
pub Ring-insert :
    (next prev next' prev' : Addr → Addr) (a b n : Addr) (xs ys : List Addr)
    → Ring next prev a (xs ++ ys) b
    → Distinct (a ∷ (xs ++ ys))
    → has b (xs ++ ys) ≡ false
    → has n (a ∷ (xs ++ ys)) ≡ false
    → n ≢ b
    → ((p : Addr)
        → next' p
          ≡ (if p == last_of a xs then n else if p == n then first_of_list ys b else next p))
    → ((p : Addr)
        → prev' p
          ≡ (if p == first_of_list ys b then n else if p == n then last_of a xs else prev p))
    → Ring next' prev' a (xs ++ n ∷ ys) b
Ring-insert next prev next' prev' a b n [] [] r d o f e hn hp =
    (ground (arith, hn a), ground (arith, hp n), (ground (arith, hn n), ground (arith, hp b)))
Ring-insert next prev next' prev' a b n [] (y ∷ ys) r d o f e hn hp = (
  ground (arith, hn a),
  ground (arith, hp n),
  (
    ground (arith, hn n),
    ground (arith, hp y),
    Ring-frame next prev next' prev' y b ys r.2 (λ p h. ground (arith, hn p))
        (λ p h. ground (arith, hp p)),
  ),
)
Ring-insert next prev next' prev' a b n (x ∷ xs) ys r d o f e hn hp = (
  ground (arith, hn a, last_ne a x xs ys d.0),
  ground (arith, hp x, first_ne x b xs ys d.1.0),
  Ring-insert next prev next' prev' x b n xs ys r.2 d.1 (ground arith) (ground arith) e hn hp,
)

-- The writes that take `n` from between `xs` and `ys`.
pub Ring-remove :
    (next prev next' prev' : Addr → Addr) (a b n : Addr) (xs ys : List Addr)
    → Ring next prev a (xs ++ n ∷ ys) b
    → Distinct (a ∷ (xs ++ n ∷ ys))
    → has b (xs ++ n ∷ ys) ≡ false
    → ((p : Addr) → next' p ≡ (if p == last_of a xs then first_of_list ys b else next p))
    → ((p : Addr) → prev' p ≡ (if p == first_of_list ys b then last_of a xs else prev p))
    → Ring next' prev' a (xs ++ ys) b
Ring-remove next prev next' prev' a b n [] [] r d o hn hp =
    (ground (arith, hn a), ground (arith, hp b))
Ring-remove next prev next' prev' a b n [] (y ∷ ys) r d o hn hp = (
  ground (arith, hn a),
  ground (arith, hp y),
  Ring-frame next prev next' prev' y b ys r.2.2 (λ p h. ground (arith, hn p))
      (λ p h. ground (arith, hp p)),
)
Ring-remove next prev next' prev' a b n (x ∷ xs) ys r d o hn hp = (
  ground (arith, hn a, last_ne a x xs (n ∷ ys) d.0),
  ground (arith, hp x, later_ne x b n xs ys d.1.0),
  Ring-remove next prev next' prev' x b n xs ys r.2 d.1 (ground arith) hn hp,
)

-- The neighbours of `n` as its own pointers have them.
pub Ring-neighbours :
    (next prev : Addr → Addr) (a b n : Addr) (xs ys : List Addr)
    → Ring next prev a (xs ++ n ∷ ys) b
    → (prev n ≡ last_of a xs) × (next n ≡ first_of_list ys b)
Ring-neighbours next prev a b n [] [] r = (r.1, r.2.0)
Ring-neighbours next prev a b n [] (y ∷ ys) r = (r.1, r.2.0)
Ring-neighbours next prev a b n (x ∷ xs) ys r = Ring-neighbours next prev x b n xs ys r.2
