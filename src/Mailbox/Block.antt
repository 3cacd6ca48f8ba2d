-- ===== src/Mailbox/Block.antt =====
-- `send_messages` and the heap: where the message stands, and that its block is given back.
use rpiosv.Base.{
  ℕ, ◌+◌, ◌*◌, ◌/◌, ◌%◌, ◌<◌, ◌≡◌, ◌≢◌, ◌∙◌, ap, subst, false, some, List, [], ◌∷◌, ◌==◌,
  if◌then◌else◌, bit_or, Addr, null, arith, Bool-cases, Option-cases, inl, inr, or_nibble,
  bit_or-zero,
}
use rpiosv.Memory.{Machine, salloc, sfree, round_size}
use rpiosv.Memory.Blocks.{
  Block, Apart, Disjoint, fits, first_fit, taken, left_over, claim, allocated, flip,
}
use rpiosv.Memory.Claim.{Every-first_fit, first_fit-fits}
use rpiosv.Memory.Take.{IsHeap}
use rpiosv.Memory.Salloc.{allocate, salloc-first_fit, salloc-IsHeap, in_range}
use rpiosv.Memory.Sfree.{sfree-IsHeap}

-- The blocks in use.
pub in_use : List Block → List Block
in_use [] = []
in_use (b ∷ bs) = if b.used then b ∷ in_use bs else in_use bs

in_use-flip :
    (lo hi n : ℕ) (bs : List Block) (b : Block)
    → Disjoint lo hi bs
    → first_fit n bs ≡ some b
    → in_use (flip b.addr (claim n bs)) ≡ in_use bs
unfolding first_fit flip claim in_use
in_use-flip lo hi n [] b d e = cc
in_use-flip lo hi n (x ∷ xs) b d e = elim (Bool-cases (fits n x)) [
  | inl f ↦ rw f (unfold taken fits in ground (arith, first_fit-fits n (x ∷ xs) b e))
  | inr f ↦
      let later : first_fit n xs ≡ some b = ground arith in
      let apart : Apart x b = Every-first_fit (Apart x) n xs d.1 later in
      let other : (b.addr == x.addr) ≡ false = ground arith in
      rw (f, other) (rw (in_use-flip lo hi n xs b d.2 later))
]

-- A block that was taken and given back leaves the blocks in use as they were.
in_use-allocated :
    (lo hi n : ℕ) (bs : List Block) (b : Block)
    → Disjoint lo hi bs
    → first_fit n bs ≡ some b
    → in_use (flip b.addr (allocated n b bs)) ≡ in_use bs
unfolding allocated left_over in_use flip
in_use-allocated lo hi n bs b d e = ground (arith, in_use-flip lo hi n bs b d e)

module _ (n lo hi : ℕ) (s : Machine) (bs : List Block) (is : IsHeap lo hi s.memory bs) where
  -- After `salloc` and `sfree` the heap is well formed, with the same blocks in use.
  pub salloc-sfree-in_use :
      (p : Addr) (s' : Machine)
      → salloc n s ≡ some (p, s')
      → p ≢ null
      → (bs' : List Block) × IsHeap lo hi (sfree p s'.memory) bs' × (in_use bs' ≡ in_use bs)
  salloc-sfree-in_use p s' e live = elim (Option-cases (first_fit (round_size n) bs)) [
    | inl f ↦ absurd (live (ground (arith, salloc-first_fit n lo hi s bs is)))
    | inr (b, f) ↦
        let at : b.addr + 16 ≡ p = ground (arith, salloc-first_fit n lo hi s bs is) in
        let r = in_range (round_size n) b is f in
        let heap : IsHeap lo hi s'.memory (allocated (round_size n) b bs) =
          subst (λ o. IsHeap lo hi s'.memory (allocate n bs o)) f
            (salloc-IsHeap n lo hi s bs is p s' e) in
        let given = sfree-IsHeap heap b.addr (omega (arith, r.below, is.high)) in
        (
          flip b.addr (allocated (round_size n) b bs),
          subst
              (λ (x : Addr).
                IsHeap lo hi (sfree x s'.memory) (flip b.addr (allocated (round_size n) b bs)))
              at given,
          in_use-allocated lo hi (round_size n) bs b is.disjoint f,
        )
  ]

-- The channel goes into the lowest four bits of an aligned address.
pub bit_or-aligned : (p c : ℕ) → p % 16 ≡ 0 → c < 16 → bit_or p c ≡ p + c
bit_or-aligned p c h k =
    ap (λ t. bit_or t c) {x = p} {y = p / 16 * 16} (omega arith)
    ∙ or_nibble (p / 16) c
    ∙ omega (
      arith,
      ap (λ t. bit_or (p / 16) t) {x = c / 16} {y = 0} (omega arith),
      bit_or-zero (p / 16),
    )
