-- ===== src/Clock/Due.antt =====
-- A list split by a test, and the first element that passes it.
use rpiosv.Base.{
  ◌≡◌, refl, ap, Bool, none, some, List, [], ◌∷◌, ◌++◌, if◌then◌else◌, Addr, arith, Bool-cases, inl,
  inr,
}
use rpiosv.Queue.Walk.{find_first}

module _ (f : Addr → Bool) where
  -- Those that pass, in order.
  pub due : List Addr → List Addr
  due [] = []
  due (x ∷ xs) = if f x then x ∷ due xs else due xs

  -- Those that do not, in order.
  pub rest : List Addr → List Addr
  rest [] = []
  rest (x ∷ xs) = if f x then rest xs else x ∷ rest xs

  pub due-none : (xs : List Addr) → find_first f xs ≡ none → (due xs ≡ []) × (rest xs ≡ xs)
  unfolding due rest find_first
  due-none [] e = (refl, refl)
  due-none (x ∷ xs) e = elim (Bool-cases (f x)) [
    | inl h ↦ absurd (ground arith)
    | inr h ↦ let (d, r) = due-none xs (ground arith) in rw h (d, ap (λ zs. x ∷ zs) r)
  ]

  -- Nothing that passes is left.
  pub find_first-rest : (xs : List Addr) → find_first f (rest xs) ≡ none
  unfolding rest find_first
  find_first-rest [] = refl
  find_first-rest (x ∷ xs) = ground (arith, find_first-rest xs)

  -- Where the first element that passes stands.
  pub record Split (xs : List Addr) (x : Addr) : Type 0 where
    pub before : List Addr
    pub after : List Addr
    pub whole : xs ≡ before ++ x ∷ after
    pub due_first : due xs ≡ x ∷ due (before ++ after)
    pub rest_same : rest xs ≡ rest (before ++ after)

  pub find_first-Split : (xs : List Addr) (x : Addr) → find_first f xs ≡ some x → Split xs x
  unfolding due rest find_first
  find_first-Split [] x e = absurd (ground arith)
  find_first-Split (y ∷ ys) x e = elim (Bool-cases (f y)) [
    | inl h ↦
        let same : y ≡ x = ground arith in
        record {
          before = [];
          after = ys;
          whole = ap (λ z. z ∷ ys) same;
          due_first = rw h (ap (λ z. z ∷ due ys) same);
          rest_same = rw h;
        }
    | inr h ↦
        let s = find_first-Split ys x (ground arith) in
        record {
          before = y ∷ s.before;
          after = s.after;
          whole = ap (λ zs. y ∷ zs) s.whole;
          due_first = rw h s.due_first;
          rest_same = rw h (ap (λ zs. y ∷ zs) s.rest_same);
        }
  ]
