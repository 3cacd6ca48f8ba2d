-- ===== src/Memory/Blocks.antt =====
-- The abstract view of the heap: a list of blocks, and first-fit allocation on it.
use rpiosv.Base.{
  ℕ, ◌+◌, ◌-◌, ◌%◌, ◌≤◌, ◌≡◌, ◌⊎◌, Bool, true, false, not, ◌&&◌, Option, none, some, List, [], ◌∷◌,
  ◌++◌, leb, ◌==◌, if◌then◌else◌, Addr,
}

-- A block at `addr` with `capacity` bytes behind its header of 16.
pub record Block : Type 0 where
  pub addr : Addr
  pub capacity : ℕ
  pub used : Bool

abbrev pub finish_of : Block → Addr
finish_of b = b.addr + 16 + b.capacity

-- The `size` field: the capacity, with the lowest bit set while the block is in use.
abbrev pub word : Block → ℕ
word b = if b.used then b.capacity + 1 else b.capacity

abbrev pub addrs : List Block → List Addr
addrs [] = []
addrs (b ∷ bs) = b.addr ∷ addrs bs

-- Bytes taken by the blocks, headers included.
abbrev pub total : List Block → ℕ
total [] = 0
total (b ∷ bs) = 16 + b.capacity + total bs

pub record InRange (lo hi : Addr) (b : Block) : Type 0 where
  pub addr_aligned : b.addr % 16 ≡ 0
  pub capacity_aligned : b.capacity % 16 ≡ 0
  pub above : lo ≤ b.addr
  pub below : finish_of b ≤ hi

abbrev pub Apart : Block → Block → Type 0
Apart b c = (finish_of b ≤ c.addr) ⊎ (finish_of c ≤ b.addr)

abbrev pub Every : (Block → Type 0) → List Block → Type 0
Every P [] = Unit
Every P (b ∷ bs) = P b × Every P bs

-- Every block lies in the heap, aligned to 16 bytes, and no two overlap.
abbrev pub Disjoint : Addr → Addr → List Block → Type 0
Disjoint lo hi [] = Unit
Disjoint lo hi (b ∷ bs) = InRange lo hi b × Every (Apart b) bs × Disjoint lo hi bs

-- First-fit allocation of `n` bytes.
unfoldable pub fits : ℕ → Block → Bool
fits n b = not b.used && leb n b.capacity

unfoldable pub first_fit : ℕ → List Block → Option Block
first_fit n [] = none
first_fit n (b ∷ bs) = if fits n b then some b else first_fit n bs

-- What becomes of the block that is taken. It is split when 32 bytes are left over.
unfoldable pub taken : ℕ → Block → Block
taken n b = record b { capacity = if leb (n + 32) b.capacity then n else b.capacity; used = true }

-- The block split off. It gets 16 bytes less than there are behind its header.
abbrev pub remains : ℕ → Block → Block
remains n b = record { addr = b.addr + 16 + n; capacity = b.capacity - n - 32; used = false }

unfoldable pub left_over : ℕ → Block → List Block
left_over n b = if leb (n + 32) b.capacity then remains n b ∷ [] else []

unfoldable pub claim : ℕ → List Block → List Block
claim n [] = []
claim n (b ∷ bs) = if fits n b then taken n b ∷ bs else b ∷ claim n bs

-- The blocks after a call that took `b`.
unfoldable pub allocated : ℕ → Block → List Block → List Block
allocated n b bs = left_over n b ++ claim n bs

-- Flip whether the block at `a` is in use: a free of a block in use, and a double free as well.
unfoldable pub flip : Addr → List Block → List Block
flip a [] = []
flip a (b ∷ bs) = if a == b.addr then record b { used = not b.used } ∷ bs else b ∷ flip a bs

unfoldable pub block_at : Addr → List Block → Option Block
block_at a [] = none
block_at a (b ∷ bs) = if a == b.addr then some b else block_at a bs
