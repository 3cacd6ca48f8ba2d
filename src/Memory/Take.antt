-- ===== src/Memory/Take.antt =====
-- The writes of `salloc` against first-fit allocation on the list of blocks.
use rpiosv.Base.{
  ℕ, ◌+◌, ◌-◌, ◌%◌, ◌^◌, ◌≤◌, ◌<◌, ◌≡◌, ◌≢◌, subst, refl, ap, true, false, some, List, [], ◌∷◌, leb,
  Addr, null, update, arith, Bool-cases, inl, inr, bit_xor, bit_xor-one,
}
use rpiosv.Memory.{Memory, take_block, toggle_alloc, split, u32, sub32, header}
use rpiosv.Memory.Blocks.{
  Block, word, total, InRange, Apart, Every, Disjoint, fits, first_fit, taken, remains, left_over,
  claim, allocated,
}
use rpiosv.Memory.Chain.{Chain}
use rpiosv.Memory.Claim.{
  Every-first_fit, first_fit-fits, Disjoint-InRange, claim-Disjoint, remains-Every,
  allocated-Disjoint, total-allocated,
}

-- The memory `m` holds the blocks `bs`, all of them between `lo` and `hi`.
pub record IsHeap (lo hi : Addr) (m : Memory) (bs : List Block) : Type 0 where
  pub low : 0 < lo
  pub high : hi < 2 ^ 32
  pub chain : Chain m.size m.next_block m.block_list_head bs
  pub disjoint : Disjoint lo hi bs
  pub budget : lo + total bs ≤ hi

module _ (size size' : Addr → ℕ) (next next' : Addr → Addr) (a new : Addr)
    (same_size : (p : Addr) → p ≢ a → p ≢ new → size' p ≡ size p)
    (same_next : (p : Addr) → p ≢ new → next' p ≡ next p) where
  Chain-frame :
      (p : Addr) (bs : List Block)
      → Chain size next p bs
      → Every (λ c. c.addr ≢ a) bs
      → Every (λ c. c.addr ≢ new) bs
      → Chain size' next' p bs
  Chain-frame p [] c x y = c
  Chain-frame p (b ∷ bs) c x y = (
    c.0,
    ground (arith, same_size b.addr),
    rw (same_next b.addr y.0) (Chain-frame (next b.addr) bs c.2 x.1 y.1),
  )

pub Apart-ne : (bs : List Block) (b : Block) → Every (Apart b) bs → Every (λ c. c.addr ≢ b.addr) bs
Apart-ne [] b h = tt
Apart-ne (c ∷ cs) b h = (ground arith, Apart-ne cs b h.1)

module _ (lo hi n : ℕ) (size size' : Addr → ℕ) (next next' : Addr → Addr) (b : Block) (new : Addr)
    (same_size : (p : Addr) → p ≢ b.addr → p ≢ new → size' p ≡ size p)
    (same_next : (p : Addr) → p ≢ new → next' p ≡ next p)
    (written : size' b.addr ≡ word (taken n b)) where
  Chain-claim :
      (p : Addr) (bs : List Block)
      → Chain size next p bs
      → Disjoint lo hi bs
      → first_fit n bs ≡ some b
      → Every (λ c. c.addr ≢ new) (claim n bs)
      → Chain size' next' p (claim n bs)
  unfolding claim first_fit taken
  Chain-claim p [] c d e ne = c
  Chain-claim p (x ∷ xs) c d e ne = elim (Bool-cases (fits n x)) [
    | inl f ↦
        let same : x ≡ b = ground arith in
        let ne' : Every (λ c. c.addr ≢ new) (taken n x ∷ xs) = rw f at ne in
        rw (f, same)
          (
            ground arith,
            written,
            rw (same_next b.addr (subst (λ (y : Block). y.addr ≢ new) same ne'.0)) (
                Chain-frame size size' next next' b.addr new same_size same_next (next b.addr) xs
                  (subst (λ (y : Block). Chain size next (next y.addr) xs) same c.2)
                  (Apart-ne xs b (subst (λ (y : Block). Every (Apart y) xs) same d.1)) ne'.1),
          )
    | inr f ↦
        let later : first_fit n xs ≡ some b = ground arith in
        let apart : Apart x b = Every-first_fit (Apart x) n xs d.1 later in
        let ne' : Every (λ c. c.addr ≢ new) (x ∷ claim n xs) = rw f at ne in
        rw f (
          c.0,
          ground (arith, same_size x.addr),
          rw (same_next x.addr ne'.0) (Chain-claim (next x.addr) xs c.2 d.2 later ne'.1),
        )
  ]

-- What `first_fit` found, as the memory and the bounds have it.
record Found (lo hi n : ℕ) (m : Memory) (b : Block) : Type 0 where
  free : m.size b.addr ≡ b.capacity
  roomy : n ≤ b.capacity
  inside : InRange lo hi b

Chain-first_fit :
    (n : ℕ) (size : Addr → ℕ) (next : Addr → Addr) (p : Addr) (bs : List Block) (b : Block)
    → Chain size next p bs
    → first_fit n bs ≡ some b
    → size b.addr ≡ word b
unfolding first_fit
Chain-first_fit n size next p [] b c e = cc
Chain-first_fit n size next p (x ∷ xs) b c e = elim (Bool-cases (fits n x)) [
  | inl f ↦ let same : x ≡ b = ground arith in subst (λ (y : Block). size y.addr ≡ word y) same c.1
  | inr f ↦ Chain-first_fit n size next (next x.addr) xs b c.2 (ground arith)
]

module _ {lo hi : Addr} {m : Memory} {bs : List Block} (is : IsHeap lo hi m bs) (n : ℕ)
    (al : n % 16 ≡ 0) (b : Block) (e : first_fit n bs ≡ some b) where
  found : Found lo hi n m b
  found = record {
    free = ground (
      arith,
      Chain-first_fit n m.size m.next_block m.block_list_head bs b is.chain e,
      first_fit-fits n bs b e,
    );
    roomy = (first_fit-fits n bs b e).1;
    inside = Every-first_fit (InRange lo hi) n bs (Disjoint-InRange lo hi bs is.disjoint) e;
  }

  -- `n + 32` does not wrap, since the heap ends below 2 ^ 32.
  roomy_lem : leb (u32 (n + header + 16)) (m.size b.addr) ≡ leb (n + 32) b.capacity
  roomy_lem = ground (
    arith, found.free, found.roomy, found.inside.below, found.inside.addr_aligned,
    found.inside.above, is.high, is.low,
  )

  module _ (room : n + 32 ≤ b.capacity) where
    abbrev split_size : Addr → ℕ
    split_size = update (update m.size (b.addr + 16 + n) (b.capacity - n - 32)) b.addr n

    abbrev split_next : Addr → Addr
    split_next =
        update (update m.next_block (b.addr + 16 + n) null) (b.addr + 16 + n) m.block_list_head

    new_ptr_lem : u32 (b.addr + header + n) ≡ b.addr + 16 + n
    new_ptr_lem = omega (arith, found.inside.below, is.high, room)

    new_size_lem : sub32 (sub32 (sub32 (m.size b.addr) n) header) header ≡ b.capacity - n - 32
    new_size_lem = rw found.free (omega (arith, found.inside.below, is.high, room))

    split_lem :
        split b.addr n m
        ≡ record { block_list_head = b.addr + 16 + n; size = split_size; next_block = split_next }
    unfolding split
    split_lem = rw (new_ptr_lem, new_size_lem)

    abbrev after_size : Addr → ℕ
    after_size = update split_size b.addr (bit_xor (split_size b.addr) 1)

    after_word : after_size b.addr ≡ word (taken n b)
    unfolding taken
    after_word = ground (arith, bit_xor-one n, room)

    remains_ne : Every (λ c. c.addr ≢ b.addr + 16 + n) (claim n bs)
    remains_ne =
        Apart-ne (claim n bs) (remains n b) (remains-Every lo hi n al bs b is.disjoint e room)

    old_Chain : Chain after_size split_next m.block_list_head (claim n bs)
    old_Chain =
        Chain-claim lo hi n m.size after_size m.next_block split_next b (b.addr + 16 + n)
          (λ p x y. ground arith) (λ p x. ground arith) after_word m.block_list_head bs is.chain
          is.disjoint e remains_ne

    split-Chain : Chain after_size split_next (b.addr + 16 + n) (remains n b ∷ claim n bs)
    split-Chain =
        let back : split_next (b.addr + 16 + n) ≡ m.block_list_head = ground arith in
        (refl, ground arith, rw back old_Chain)

    take_block-split :
        take_block b.addr n m
        ≡ record { block_list_head = b.addr + 16 + n; size = after_size; next_block = split_next }
    unfolding take_block toggle_alloc
    take_block-split =
        let yes_room : leb (n + 32) b.capacity ≡ true = ground arith in
        rw (roomy_lem, yes_room) (ap (toggle_alloc b.addr) split_lem)

  module _ (tight : leb (n + 32) b.capacity ≡ false) where
    abbrev tight_size : Addr → ℕ
    tight_size = update m.size b.addr (bit_xor (m.size b.addr) 1)

    tight_word : tight_size b.addr ≡ word (taken n b)
    unfolding taken
    tight_word =
        ground
          (arith, bit_xor-one (m.size b.addr), tight, found.free, found.inside.capacity_aligned)

    take_block-tight : take_block b.addr n m ≡ record m { size = tight_size }
    unfolding take_block toggle_alloc
    take_block-tight = rw (roomy_lem, tight)

    tight_ne : (xs : List Block) → Every (InRange lo hi) xs → Every (λ c. c.addr ≢ null) xs
    tight_ne [] h = tt
    tight_ne (x ∷ xs) h = (ground (arith, is.low, h.0.above), tight_ne xs h.1)

    tight-Chain : Chain tight_size m.next_block m.block_list_head (claim n bs)
    tight-Chain =
        Chain-claim lo hi n m.size tight_size m.next_block m.next_block b null
          (λ p x y. ground arith) (λ p x. refl) tight_word m.block_list_head bs is.chain is.disjoint
          e
          (tight_ne (claim n bs)
            (Disjoint-InRange lo hi (claim n bs) (claim-Disjoint lo hi n al bs is.disjoint)))

  allocated_budget : lo + total (allocated n b bs) ≤ hi
  allocated_budget = omega (arith, total-allocated n bs b e, is.budget)

  -- The writes of a successful call are first-fit allocation on the blocks.
  pub take-IsHeap : IsHeap lo hi (take_block b.addr n m) (allocated n b bs)
  take-IsHeap = elim (Bool-cases (leb (n + 32) b.capacity)) [
    | inl f ↦
        let room : n + 32 ≤ b.capacity = ground arith in
        record {
          low = is.low;
          high = is.high;
          chain =
              rw (take_block-split room) (unfold allocated left_over in rw f (split-Chain room));
          disjoint = allocated-Disjoint lo hi n al bs b is.disjoint e;
          budget = allocated_budget;
        }
    | inr f ↦ record {
      low = is.low;
      high = is.high;
      chain = rw (take_block-tight f) (unfold allocated left_over in rw f (tight-Chain f));
      disjoint = allocated-Disjoint lo hi n al bs b is.disjoint e;
      budget = allocated_budget;
    }
  ]
