-- ===== src/Memory/Grants.antt =====
-- A sequence of allocations on a heap that has room for all of them.
use rpiosv.Base.{
  ℕ, ◌+◌, ◌≤◌, ◌≡◌, ◌≢◌, refl, subst, ◌∙◌, ap, true, false, some, List, [], ◌∷◌, Addr, null, arith,
  has, Distinct,
}
use rpiosv.Interrupts.Level.{disabled}
use rpiosv.Memory.{Machine, salloc, round_size, take_block}
use rpiosv.Memory.Blocks.{Block, allocated}
use rpiosv.Memory.Claim.{first_fit-fits}
use rpiosv.Memory.Take.{IsHeap}
use rpiosv.Memory.Salloc.{answer, allocate, in_range, salloc-first_fit, salloc-IsHeap}
use rpiosv.Memory.Room.{
  roomy, held, roomy-le, roomy-first_fit, roomy-allocated, held-first_fit, held-allocated,
}

-- Calls of `salloc` one after the other succeed, and `K` holds of what they return and of the last
-- state.
unfoldable pub Granted : List ℕ → Machine → (List Addr → Machine → Type 0) → Type 0
Granted [] s K = K [] s
Granted (n ∷ ns) s K =
    (p : Addr) × (s' : Machine) × (salloc n s ≡ some (p, s')) × Granted ns s' (λ ps t. K (p ∷ ps) t)

Granted-map :
    (ns : List ℕ) (s : Machine) {K L : List Addr → Machine → Type 0}
    → ((ps : List Addr) (t : Machine) → K ps t → L ps t)
    → Granted ns s K
    → Granted ns s L
unfolding Granted
Granted-map [] s f g = f [] s g
Granted-map (n ∷ ns) s f (p, s', e, g) = (p, s', e, Granted-map ns s' (λ ps t. f (p ∷ ps) t) g)

-- The room that calls need: a block is split off with its header, and loses 16 bytes more.
unfoldable pub room_for : List ℕ → ℕ
room_for [] = 0
room_for (n ∷ ns) = round_size n + 32 + room_for ns

-- Each size has its bytes in the heap, behind a header.
abbrev pub Within : (lo hi : Addr) → List ℕ → List Addr → Type 0
Within lo hi [] ps = Unit
Within lo hi (n ∷ ns) [] = Unit
Within lo hi (n ∷ ns) (p ∷ ps) = (lo + 16 ≤ p) × (p + round_size n ≤ hi) × Within lo hi ns ps

-- Different pointers, none of them NULL, to bytes of the heap in blocks that were not in use.
pub record Fresh (lo hi : Addr) (ns : List ℕ) (bs : List Block) (ps : List Addr) : Type 0 where
  pub within : Within lo hi ns ps
  pub distinct : Distinct ps
  pub real : has null ps ≡ false
  pub unused : (a : Addr) → held a bs ≡ true → has (a + 16) ps ≡ false

-- One call.
record Step (lo hi n : ℕ) (s : Machine) (bs : List Block) (c : ℕ) : Type 0 where
  block : Addr
  state : Machine
  blocks : List Block
  returns : salloc n s ≡ some (block + 16, state)
  heap : IsHeap lo hi state.memory blocks
  room : roomy c blocks ≡ true
  new : held block bs ≡ false
  taken : held block blocks ≡ true
  inside : (lo ≤ block) × (block + 16 + round_size n ≤ hi)
  kept : (a : Addr) → held a bs ≡ true → held a blocks ≡ true

module _ (lo hi : ℕ) where
  step :
      (n : ℕ) (s : Machine) (bs : List Block) (c : ℕ)
      → IsHeap lo hi s.memory bs
      → roomy (round_size n + 32 + c) bs ≡ true
      → Step lo hi n s bs c
  step n s bs c is r =
      let (b, f) = roomy-first_fit (round_size n) bs (roomy-le _ _ bs (omega arith) r) in
      let e = salloc-first_fit n lo hi s bs is ∙ ap (answer n s) f in
      let state : Machine = record {
        irq = disabled;
        memory = take_block b.addr (round_size n) s.memory;
      } in
      record {
        block = b.addr;
        state = state;
        blocks = allocated (round_size n) b bs;
        returns = e;
        heap =
            subst (λ o. IsHeap lo hi state.memory (allocate n bs o)) f
              (salloc-IsHeap n lo hi s bs is (b.addr + 16) state e);
        room = roomy-allocated (round_size n) c bs b r f;
        inside =
            let r = in_range (round_size n) b is f in
            (
              ground (arith, r.above),
              omega (arith, r.below, (first_fit-fits (round_size n) bs b f).1),
            );
        new = held-first_fit lo hi (round_size n) bs b is.disjoint f;
        taken = (held-allocated (round_size n) 0 bs b f).0;
        kept = λ a. (held-allocated (round_size n) a bs b f).1;
      }

  -- On a well-formed heap with a free block of `room_for ns` bytes, calls of `salloc` for the sizes
  -- `ns`, one after the other, succeed, with different pointers that are not NULL, to bytes of the
  -- heap in blocks that were not in use.
  pub salloc-Granted :
      (ns : List ℕ) (s : Machine) (bs : List Block)
      → IsHeap lo hi s.memory bs
      → roomy (room_for ns) bs ≡ true
      → Granted ns s (λ ps t. Fresh lo hi ns bs ps)
  unfolding Granted room_for
  salloc-Granted [] s bs is r = record {
    within = tt;
    distinct = tt;
    real = refl;
    unused = λ a h. refl;
  }
  salloc-Granted (n ∷ ns) s bs is r =
      let one = step n s bs (room_for ns) is r in
      (
        one.block + 16,
        one.state,
        one.returns,
        Granted-map ns one.state
            (λ ps t fresh. record {
              within = (ground (arith, one.inside.0), one.inside.1, fresh.within);
              distinct = (fresh.unused one.block one.taken, fresh.distinct);
              real = ground (arith, fresh.real);
              unused = λ a h.
                  let other : a ≢ one.block = λ e. ground (arith, one.new, h, e) in
                  ground (arith, fresh.unused a (one.kept a h), other);
            })
            (salloc-Granted ns one.state one.blocks one.heap one.room),
      )
