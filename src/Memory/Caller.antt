-- ===== src/Memory/Caller.antt =====
-- What a caller of `salloc` and `sfree` may rely on.
use rpiosv.Base.{
  ℕ, ◌+◌, ◌%◌, ◌^◌, ◌≤◌, ◌<◌, ◌≡◌, ◌≢◌, ◌⊎◌, ◌↔◌, ◌∙◌, refl, ap, sym, subst, true, false, none,
  some, List, [], ◌∷◌, ◌==◌, Addr, null, arith, Bool-cases, Option-cases, inl, inr,
}
use rpiosv.Interrupts.Level.{disabled}
use rpiosv.Memory.{Machine, round_size, take_block, salloc, sfree}
use rpiosv.Memory.Blocks.{
  Block, finish_of, total, Apart, Every, Disjoint, fits, first_fit, taken, left_over, claim,
  allocated, flip,
}
use rpiosv.Memory.Claim.{Every-first_fit, first_fit-fits, total-allocated}
use rpiosv.Memory.Take.{IsHeap}
use rpiosv.Memory.Salloc.{answer, allocate, salloc-first_fit, salloc-IsHeap, in_range}
use rpiosv.Memory.Sfree.{sfree-IsHeap, used_Apart}

-- Below the sizes that wrap, rounding does not make a request smaller.
round_size-lt : (n : ℕ) → n + 16 < 2 ^ 32 → n < round_size n
unfolding round_size
round_size-lt n h = omega arith

round_size-wraps : (n : ℕ) → 2 ^ 32 ≤ n + 16 → n < 2 ^ 32 → round_size n ≡ 0
unfolding round_size
round_size-wraps n h k = omega arith

-- No block in use meets the `n` bytes from `p`.
abbrev pub Unused : Addr → ℕ → List Block → Type 0
Unused p n bs = Every (λ c. c.used ≡ true → (finish_of c ≤ p) ⊎ (p + n ≤ c.addr)) bs

Unused-Apart :
    (m n : ℕ) (b : Block) (bs : List Block)
    → n ≤ b.capacity
    → Every (λ c. c.used ≡ true → Apart c b) bs
    → Unused (b.addr + 16) n bs
Unused-Apart m n b [] h e = tt
Unused-Apart m n b (c ∷ cs) h e = (λ u. ground (arith, e.0 u), Unused-Apart m n b cs h e.1)

-- All free blocks are too small.
abbrev pub Full : ℕ → List Block → Type 0
Full n bs = Every (λ c. c.used ≡ false → c.capacity < n) bs

Full-first_fit : (n : ℕ) (bs : List Block) → (first_fit n bs ≡ none) ↔ Full n bs
unfolding first_fit fits
Full-first_fit n [] = (λ e. tt, λ e. refl)
Full-first_fit n (x ∷ xs) =
    let rest = Full-first_fit n xs in
    (λ e. (ground arith, rest.0 (ground arith)), λ e. ground (arith, e.0, rest.1 e.1))

module _ (n lo hi : ℕ) (s : Machine) (bs : List Block) (is : IsHeap lo hi s.memory bs) where
  answered :
      (p : Addr) (s' : Machine)
      → salloc n s ≡ some (p, s')
      → p ≢ null
      → (b : Block) × (first_fit (round_size n) bs ≡ some b)
        × (p ≡ b.addr + 16)
        × (s' ≡ record { irq = disabled; memory = take_block b.addr (round_size n) s.memory })
  answered p s' e live = elim (Option-cases (first_fit (round_size n) bs)) [
    | inl f ↦ absurd (live (ground (arith, salloc-first_fit n lo hi s bs is)))
    | inr (b, f) ↦ (
      b,
      f,
      ground (arith, salloc-first_fit n lo hi s bs is),
      ground (arith, salloc-first_fit n lo hi s bs is),
    )
  ]

  -- A pointer that `salloc` returns for a size below 2 ^ 32 - 16 is aligned to 16 bytes, its `n`
  -- bytes lie in the heap behind a header, and they meet no block that was in use.
  pub salloc-Unused :
      (p : Addr) (s' : Machine)
      → n + 16 < 2 ^ 32
      → salloc n s ≡ some (p, s')
      → p ≢ null
      → (p % 16 ≡ 0) × (lo + 16 ≤ p) × (p + n ≤ hi) × Unused p n bs
  salloc-Unused p s' small e live =
      let (b, f, at, _) = answered p s' e live in
      let r = in_range (round_size n) b is f in
      let roomy = (first_fit-fits (round_size n) bs b f).1 in
      let big = round_size-lt n small in
      (
        ground (arith, r.addr_aligned),
        ground (arith, r.above),
        ground (arith, r.below),
        rw at (
            Unused-Apart n n b bs (omega arith)
              (used_Apart lo hi (round_size n) bs b is.disjoint f)),
      )

  -- On a well-formed heap `salloc` returns NULL, with the state as it was, exactly when every free block is smaller than the rounded size.
  pub salloc-Full : (salloc n s ≡ some (null, s)) ↔ Full (round_size n) bs
  salloc-Full =
      let full = Full-first_fit (round_size n) bs in
      (
        λ e. elim (Option-cases (first_fit (round_size n) bs)) [
          | inl f ↦ full.0 f
          | inr (b, f) ↦ absurd (ground (arith, salloc-first_fit n lo hi s bs is))
        ],
        λ h. let f = full.1 h in ground (arith, salloc-first_fit n lo hi s bs is),
      )

  -- A size from 2 ^ 32 - 16 on is rounded to 0: the call succeeds on any free block, and returns
  -- a pointer behind which there are fewer than `n` bytes in the heap.
  pub salloc_wraps :
      (b : Block)
      → 2 ^ 32 ≤ n + 16
      → n < 2 ^ 32
      → first_fit 0 bs ≡ some b
      → (s' : Machine) × (salloc n s ≡ some (b.addr + 16, s')) × (hi < b.addr + 16 + n)
  salloc_wraps b big bounded f =
      let zero = round_size-wraps n big bounded in
      let f' : first_fit (round_size n) bs ≡ some b = rw zero f in
      (
        _,
        salloc-first_fit n lo hi s bs is ∙ ap (answer n s) f',
        omega (arith, (in_range 0 b is f).above, is.high, is.low),
      )

-- The block just taken, once it is freed again, or an earlier one, fits the same request.
first_fit-flip :
    (lo hi n : ℕ) (bs : List Block) (b : Block)
    → Disjoint lo hi bs
    → first_fit n bs ≡ some b
    → first_fit n (flip b.addr (claim n bs)) ≢ none
unfolding first_fit flip claim
first_fit-flip lo hi n [] b d e = cc
first_fit-flip lo hi n (x ∷ xs) b d e = elim (Bool-cases (fits n x)) [
  | inl f ↦ rw f (unfold taken fits in ground (arith, first_fit-fits n (x ∷ xs) b e))
  | inr f ↦
      let later : first_fit n xs ≡ some b = ground arith in
      let apart : Apart x b = Every-first_fit (Apart x) n xs d.1 later in
      let other : (b.addr == x.addr) ≡ false = ground arith in
      rw (f, other, f) (first_fit-flip lo hi n xs b d.2 later)
]

first_fit-allocated :
    (lo hi n : ℕ) (bs : List Block) (b : Block)
    → Disjoint lo hi bs
    → first_fit n bs ≡ some b
    → first_fit n (flip b.addr (allocated n b bs)) ≢ none
unfolding allocated left_over first_fit flip
first_fit-allocated lo hi n bs b d e = ground (arith, first_fit-flip lo hi n bs b d e)

module _ (n lo hi : ℕ) (s : Machine) (bs : List Block) (is : IsHeap lo hi s.memory bs) where
  -- On a well-formed heap, after `sfree(p)` of the pointer that `salloc(n)` returned, `salloc(n)` does not fail.
  pub salloc-sfree :
      (p : Addr) (s' : Machine)
      → salloc n s ≡ some (p, s')
      → p ≢ null
      → (q : Addr) × (t : Machine) × (salloc n (record s' { memory = sfree p s'.memory })
          ≡ some (q, t))
        × (q ≢ null)
  salloc-sfree p s' e live =
      let (b, f, at, _) = answered n lo hi s bs is p s' e live in
      let r = in_range (round_size n) b is f in
      let heap : IsHeap lo hi s'.memory (allocated (round_size n) b bs) =
        subst (λ o. IsHeap lo hi s'.memory (allocate n bs o)) f
          (salloc-IsHeap n lo hi s bs is p s' e) in
      let freed = sfree-IsHeap heap b.addr (omega (arith, r.below, is.high)) in
      let found = first_fit-allocated lo hi (round_size n) bs b is.disjoint f in
      let s'' : Machine = record s' { memory = sfree p s'.memory } in
      let freed' : IsHeap lo hi s''.memory (flip b.addr (allocated (round_size n) b bs)) =
        subst
          (λ (x : Addr).
            IsHeap lo hi (sfree x s'.memory) (flip b.addr (allocated (round_size n) b bs)))
          (sym at) freed in
      let again = salloc-first_fit n lo hi s'' _ freed' in
      elim (Option-cases (first_fit (round_size n) (flip b.addr (allocated (round_size n) b bs)))) [
        | inl none' ↦ absurd (found none')
        | inr (c, some') ↦ (c.addr + 16, _, again ∙ ap (answer n s'') some', omega arith)
      ]

  -- A call of `salloc` that splits a block of capacity at least 32 bytes over the rounded size loses 16 bytes:
  -- the blocks of the new heap, headers included, have 16 bytes less than those of the old.
  pub salloc-total :
      (p : Addr) (s' : Machine) (b : Block)
      → salloc n s ≡ some (p, s')
      → first_fit (round_size n) bs ≡ some b
      → round_size n + 32 ≤ b.capacity
      → (bs' : List Block) × IsHeap lo hi s'.memory bs' × (total bs' + 16 ≡ total bs)
  salloc-total p s' b e f room = (
    allocated (round_size n) b bs,
    subst (λ o. IsHeap lo hi s'.memory (allocate n bs o)) f (salloc-IsHeap n lo hi s bs is p s' e),
    ground (arith, total-allocated (round_size n) bs b f),
  )
