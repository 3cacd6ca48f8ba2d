-- ===== src/Memory/Salloc.antt =====
-- `salloc` and `sfree` against first-fit allocation on the list of blocks.
use rpiosv.Base.{
  ℕ, ◌+◌, ◌*◌, ◌%◌, ◌≤◌, ◌<◌, ◌≡◌, Option, none, some, List, [], ◌∷◌, Addr, null, arith, length,
  Option-cases, inl, inr,
}
use rpiosv.Interrupts.Level.{disabled, set_interrupt_level}
use rpiosv.Memory.{Memory, Machine, round_size, take_block, block_fuel, salloc, u32}
use rpiosv.Memory.Blocks.{Block, total, InRange, first_fit, allocated}
use rpiosv.Memory.Chain.{walk-first_fit}
use rpiosv.Memory.Claim.{Every-first_fit, Disjoint-InRange}
use rpiosv.Memory.Take.{IsHeap, take-IsHeap}

length-total : (bs : List Block) → 16 * length bs ≤ total bs
length-total [] = omega arith
length-total (b ∷ bs) = omega (arith, length-total bs)

-- The fuel covers every well-formed heap.
enough : {lo hi : Addr} {m : Memory} {bs : List Block} → IsHeap lo hi m bs → length bs < block_fuel
enough {bs} is = omega (arith, length-total bs, is.budget, is.high)

pub round_size-aligned : (n : ℕ) → round_size n % 16 ≡ 0
unfolding round_size
round_size-aligned n = omega arith

-- What a call returns: with no block that fits, NULL, the memory as it was and the interrupt level
-- as it was; else the first that fits, with interrupts disabled.
abbrev pub answer : ℕ → Machine → Option Block → Option (Addr × Machine)
answer n s none = some (null, s)
answer n s (some b) =
    some
      (b.addr + 16, record { irq = disabled; memory = take_block b.addr (round_size n) s.memory })

-- The blocks after a call.
abbrev pub allocate : ℕ → List Block → Option Block → List Block
allocate n bs none = bs
allocate n bs (some b) = allocated (round_size n) b bs

pub in_range :
    {lo hi : Addr} {m : Memory} {bs : List Block} (n : ℕ) (b : Block)
    → IsHeap lo hi m bs
    → first_fit n bs ≡ some b
    → InRange lo hi b
in_range {lo} {hi} {bs = bs} n b is e =
    Every-first_fit (InRange lo hi) n bs (Disjoint-InRange lo hi bs is.disjoint) e

module _ (n lo hi : ℕ) (s : Machine) (bs : List Block) (is : IsHeap lo hi s.memory bs) where
  -- On a heap that holds the blocks `bs`, `salloc` returns, and its answer is that of first-fit
  -- search for the rounded size: NULL with the state as it was if no block fits, else the address
  -- behind the header of the first that does, with interrupts disabled.
  pub salloc-first_fit : salloc n s ≡ answer n s (first_fit (round_size n) bs)
  unfolding salloc set_interrupt_level
  salloc-first_fit =
      let walked =
        walk-first_fit block_fuel (round_size n) lo hi s.memory s.memory.block_list_head bs is.low
          is.disjoint is.chain (enough is) in
      elim (Option-cases (first_fit (round_size n) bs)) [
        | inl e ↦ rw (walked, e) (ground arith)
        | inr (b, e) ↦
            let r = in_range (round_size n) b is e in
            let small : u32 (b.addr + 16) ≡ b.addr + 16 = omega (arith, r.below, is.high) in
            rw (walked, e, small) (ground arith)
      ]

  -- After a call of `salloc` on a well-formed heap the heap is well formed, and holds the blocks that first-fit allocation gives.
  pub salloc-IsHeap :
      (p : Addr) (s' : Machine)
      → salloc n s ≡ some (p, s')
      → IsHeap lo hi s'.memory (allocate n bs (first_fit (round_size n) bs))
  salloc-IsHeap p s' e = elim (Option-cases (first_fit (round_size n) bs)) [
    | inl f ↦ let same : s ≡ s' = ground (arith, salloc-first_fit, f) in rw (f, ← same) is
    | inr (b, f) ↦
        let same : take_block b.addr (round_size n) s.memory ≡ s'.memory =
          ground (arith, salloc-first_fit, f) in
        rw (f, ← same) (take-IsHeap is (round_size n) (round_size-aligned n) b f)
  ]
