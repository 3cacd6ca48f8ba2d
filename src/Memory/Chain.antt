-- ===== src/Memory/Chain.antt =====
-- The list of headers in memory against the list of blocks, and the loop of `salloc` against
-- first-fit search.
use rpiosv.Base.{
  ℕ, zero, suc, ◌+◌, ◌%◌, ◌<◌, ◌≡◌, not, ◌&&◌, Option, none, some, List, [], ◌∷◌, leb, Addr, null,
  arith, length, bit_and-one,
}
use rpiosv.Memory.{Memory, Walk, exhausted, returned, walk, is_free, take_block, u32, header}
use rpiosv.Memory.Blocks.{Block, word, Disjoint, fits, first_fit}

-- From `p` the `next_block` pointers lead through the headers of the blocks to NULL.
abbrev pub Chain : (Addr → ℕ) → (Addr → Addr) → Addr → List Block → Type 0
Chain size next p [] = p ≡ null
Chain size next p (b ∷ bs) =
    (p ≡ b.addr) × (size b.addr ≡ word b) × Chain size next (next b.addr) bs

-- The outcome that first-fit search calls for.
abbrev pub outcome : ℕ → Memory → Option Block → Walk
outcome n m none = exhausted
outcome n m (some b) = returned (u32 (b.addr + header)) (take_block b.addr n m)

is_free-used :
    (m : Memory) (b : Block)
    → b.capacity % 16 ≡ 0
    → m.size b.addr ≡ word b
    → is_free m b.addr ≡ not b.used
unfolding is_free
is_free-used m b al e = ground (arith, bit_and-one (m.size b.addr))

-- A block in use has an odd size word, so the test of the loop is `fits`.
test-fits :
    (n : ℕ) (m : Memory) (b : Block)
    → b.capacity % 16 ≡ 0
    → m.size b.addr ≡ word b
    → (is_free m b.addr && leb n (m.size b.addr)) ≡ fits n b
unfolding fits
test-fits n m b al e = ground (arith, is_free-used m b al e)

-- With fuel for the length of the list, the loop of `salloc` is first-fit search.
pub walk-first_fit :
    (f n lo hi : ℕ) (m : Memory) (p : Addr) (bs : List Block)
    → 0 < lo
    → Disjoint lo hi bs
    → Chain m.size m.next_block p bs
    → length bs < f
    → walk f n p m ≡ outcome n m (first_fit n bs)
unfolding walk first_fit
walk-first_fit zero n lo hi m p bs low d c fuel = absurd (omega arith)
walk-first_fit (suc f) n lo hi m p [] low d c fuel = ground arith
walk-first_fit (suc f) n lo hi m p (b ∷ bs) low d c fuel = ground (
  arith,
  test-fits n m b d.0.capacity_aligned c.1,
  walk-first_fit f n lo hi m (m.next_block b.addr) bs low d.2 c.2 (omega arith),
)
