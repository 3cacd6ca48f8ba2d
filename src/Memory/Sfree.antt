-- ===== src/Memory/Sfree.antt =====
-- `sfree` and `init_smemory` on the list of blocks, and what the caller of `salloc` gets.
use rpiosv.Base.{
  ℕ, ◌+◌, ◌-◌, ◌%◌, ◌^◌, ◌≤◌, ◌<◌, ◌≡◌, ◌≢◌, refl, sym, subst, true, false, not, some, List, [],
  ◌∷◌, ◌==◌, Addr, null, update, arith, Bool-cases, inl, inr, bit_xor-one, bit_xor,
}
use rpiosv.Memory.{Memory, init_smemory, sfree, toggle_alloc, sub32}
use rpiosv.Memory.Blocks.{Block, word, total, Apart, Every, Disjoint, fits, first_fit, flip}
use rpiosv.Memory.Chain.{Chain}
use rpiosv.Memory.Claim.{Every-first_fit, first_fit-fits}
use rpiosv.Memory.Take.{IsHeap, Apart-ne}

flip-Every :
    (a : Addr) (b : Block) (bs : List Block) → Every (Apart b) bs → Every (Apart b) (flip a bs)
unfolding flip
flip-Every a b [] h = tt
flip-Every a b (x ∷ xs) h = elim (Bool-cases (a == x.addr)) [
  | inl f ↦ rw f (h.0, h.1)
  | inr f ↦ rw f (h.0, flip-Every a b xs h.1)
]

flip-Disjoint : (lo hi a : Addr) (bs : List Block) → Disjoint lo hi bs → Disjoint lo hi (flip a bs)
unfolding flip
flip-Disjoint lo hi a [] d = tt
flip-Disjoint lo hi a (x ∷ xs) d = elim (Bool-cases (a == x.addr)) [
  | inl f ↦ rw f (ground arith, d.1, d.2)
  | inr f ↦ rw f (d.0, flip-Every a x xs d.1, flip-Disjoint lo hi a xs d.2)
]

total-flip : (a : Addr) (bs : List Block) → total (flip a bs) ≡ total bs
unfolding flip
total-flip a [] = refl
total-flip a (x ∷ xs) = ground (arith, total-flip a xs)

Chain-other :
    (size : Addr → ℕ) (next : Addr → Addr) (a p : Addr) (v : ℕ) (bs : List Block)
    → Chain size next p bs
    → Every (λ c. c.addr ≢ a) bs
    → Chain (update size a v) next p bs
Chain-other size next a p v [] c ne = c
Chain-other size next a p v (x ∷ xs) c ne =
    (c.0, ground arith, Chain-other size next a (next x.addr) v xs c.2 ne.1)

toggled :
    (b : Block) → b.capacity % 16 ≡ 0 → bit_xor (word b) 1 ≡ word (record b { used = not b.used })
toggled b al = ground (arith, bit_xor-one b.capacity, bit_xor-one (b.capacity + 1))

Chain-flip :
    (lo hi : Addr) (size : Addr → ℕ) (next : Addr → Addr) (a p : Addr) (bs : List Block)
    → Chain size next p bs
    → Disjoint lo hi bs
    → Chain (update size a (bit_xor (size a) 1)) next p (flip a bs)
unfolding flip
Chain-flip lo hi size next a p [] c d = c
Chain-flip lo hi size next a p (x ∷ xs) c d = elim (Bool-cases (a == x.addr)) [
  | inl f ↦
      let here : a ≡ x.addr = ground arith in
      rw f (
        c.0,
        ground (arith, toggled x d.0.capacity_aligned),
        Chain-other size next a (next x.addr) (bit_xor (size a) 1) xs c.2
            (subst (λ y. Every (λ c. c.addr ≢ y) xs) (sym here) (Apart-ne xs x d.1)),
      )
  | inr f ↦ rw f (c.0, ground arith, Chain-flip lo hi size next a (next x.addr) xs c.2 d.2)
]

module _ {lo hi : Addr} {m : Memory} {bs : List Block} (is : IsHeap lo hi m bs) where
  -- On a well-formed heap `sfree` of the pointer behind a header flips whether that block is in use and changes
  -- nothing else. On a block in use that frees it; a second `sfree` of the same pointer would mark
  -- the block as in use again.
  pub sfree-IsHeap : (a : Addr) → a + 16 < 2 ^ 32 → IsHeap lo hi (sfree (a + 16) m) (flip a bs)
  unfolding sfree toggle_alloc
  sfree-IsHeap a h =
      let back : sub32 (a + 16) 16 ≡ a = omega arith in
      let live : (a + 16 == null) ≡ false = ground arith in
      rw (live, back)
        (record {
          low = is.low;
          high = is.high;
          chain = Chain-flip lo hi m.size m.next_block a m.block_list_head bs is.chain is.disjoint;
          disjoint = flip-Disjoint lo hi a bs is.disjoint;
          budget = omega (arith, total-flip a bs, is.budget);
        })

-- Every block in use is apart from the block that first-fit search finds.
pub used_Apart :
    (lo hi n : ℕ) (bs : List Block) (b : Block)
    → Disjoint lo hi bs
    → first_fit n bs ≡ some b
    → Every (λ c. c.used ≡ true → Apart c b) bs
unfolding first_fit
used_Apart lo hi n [] b d e = tt
used_Apart lo hi n (x ∷ xs) b d e = elim (Bool-cases (fits n x)) [
  | inl f ↦
      let same : x ≡ b = ground arith in
      (
        λ u. absurd (ground (arith, first_fit-fits n (x ∷ xs) b e)),
        mirror xs (subst (λ (y : Block). Every (Apart y) xs) same d.1),
      )
  | inr f ↦
      let later : first_fit n xs ≡ some b = ground arith in
      (λ u. Every-first_fit (Apart x) n xs d.1 later, used_Apart lo hi n xs b d.2 later)
]
  where
    mirror : (ys : List Block) → Every (Apart b) ys → Every (λ c. c.used ≡ true → Apart c b) ys
    mirror [] h = tt
    mirror (y ∷ ys) h = (λ u. ground arith, mirror ys h.1)

-- `init_smemory` of an area that is aligned to 16 bytes, has room for a header, begins after NULL and
-- ends below 2 ^ 32 makes a heap of one free block.
pub init_smemory-IsHeap :
    (mem_ptr size : ℕ) (m : Memory)
    → 0 < mem_ptr
    → mem_ptr % 16 ≡ 0
    → size % 16 ≡ 0
    → 16 ≤ size
    → mem_ptr + size < 2 ^ 32
    → IsHeap mem_ptr
        (mem_ptr + size)
        (init_smemory mem_ptr size m)
        (record { addr = mem_ptr; capacity = size - 16; used = false } ∷ [])
unfolding init_smemory
init_smemory-IsHeap mem_ptr size m pos al al' big fit = record {
  low = pos;
  high = fit;
  chain = (refl, ground arith, ground arith);
  disjoint = (ground arith, tt, tt);
  budget = omega arith;
}
