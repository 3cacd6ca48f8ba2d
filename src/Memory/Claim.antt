-- ===== src/Memory/Claim.antt =====
-- First-fit allocation on the list of blocks keeps the blocks aligned, inside the heap and apart.
use rpiosv.Base.{
  ℕ, ◌+◌, ◌%◌, ◌≤◌, ◌≡◌, subst, true, false, some, List, [], ◌∷◌, leb, if◌then◌else◌, Addr, arith,
  Bool-cases, inl, inr,
}
use rpiosv.Memory.Blocks.{
  Block, finish_of, total, InRange, Apart, Every, Disjoint, fits, first_fit, taken, remains,
  left_over, claim, allocated,
}

-- What holds of every block holds of the first that fits.
pub Every-first_fit :
    (P : Block → Type 0) (n : ℕ) (bs : List Block) {b : Block}
    → Every P bs
    → first_fit n bs ≡ some b
    → P b
unfolding first_fit
Every-first_fit P n [] h e = cc
Every-first_fit P n (x ∷ xs) {b} h e = elim (Bool-cases (fits n x)) [
  | inl f ↦ let same : x ≡ b = ground arith in subst P same h.0
  | inr f ↦ Every-first_fit P n xs h.1 (ground arith)
]

pub first_fit-fits :
    (n : ℕ) (bs : List Block) (b : Block)
    → first_fit n bs ≡ some b
    → (b.used ≡ false) × (n ≤ b.capacity)
unfolding first_fit fits
first_fit-fits n [] b e = cc
first_fit-fits n (x ∷ xs) b e = ground (arith, first_fit-fits n xs b)

pub Disjoint-InRange :
    (lo hi : Addr) (bs : List Block) → Disjoint lo hi bs → Every (InRange lo hi) bs
Disjoint-InRange lo hi [] d = tt
Disjoint-InRange lo hi (b ∷ bs) d = (d.0, Disjoint-InRange lo hi bs d.2)

-- `c` lies within `b`.
abbrev Inside : Block → Block → Type 0
Inside c b = (b.addr ≤ c.addr) × (finish_of c ≤ finish_of b)

Every-Inside :
    (bs : List Block) (b c : Block) → Inside c b → Every (Apart b) bs → Every (Apart c) bs
Every-Inside [] b c i h = tt
Every-Inside (x ∷ xs) b c i h = (ground arith, Every-Inside xs b c i h.1)

taken-Inside : (n : ℕ) (b : Block) → n ≤ b.capacity → Inside (taken n b) b
unfolding taken
taken-Inside n b h = ground arith

fits-le : (n : ℕ) (b : Block) → fits n b ≡ true → n ≤ b.capacity
unfolding fits
fits-le n b h = ground arith

Every-claim :
    (n : ℕ) (bs : List Block) (b : Block) → Every (Apart b) bs → Every (Apart b) (claim n bs)
unfolding claim
Every-claim n [] b h = tt
Every-claim n (x ∷ xs) b h = elim (Bool-cases (fits n x)) [
  | inl f ↦ rw f (ground (arith, taken-Inside n x (fits-le n x f)), h.1)
  | inr f ↦ rw f (h.0, Every-claim n xs b h.1)
]

module _ (lo hi : Addr) (n : ℕ) (al : n % 16 ≡ 0) where
  taken-InRange : (b : Block) → n ≤ b.capacity → InRange lo hi b → InRange lo hi (taken n b)
  unfolding taken
  taken-InRange b h r = ground arith

  pub claim-Disjoint : (bs : List Block) → Disjoint lo hi bs → Disjoint lo hi (claim n bs)
  unfolding claim
  claim-Disjoint [] d = tt
  claim-Disjoint (b ∷ bs) d = elim (Bool-cases (fits n b)) [
    | inl f ↦
        let small = fits-le n b f in
        rw f (
          taken-InRange b small d.0,
          Every-Inside bs b (taken n b) (taken-Inside n b small) d.1,
          d.2,
        )
    | inr f ↦ rw f (d.0, Every-claim n bs b d.1, claim-Disjoint bs d.2)
  ]

  remains-Apart : (b : Block) → n + 32 ≤ b.capacity → Apart (remains n b) (taken n b)
  unfolding taken
  remains-Apart b room = ground arith

  pub remains-Every :
      (bs : List Block) (b : Block)
      → Disjoint lo hi bs
      → first_fit n bs ≡ some b
      → n + 32 ≤ b.capacity
      → Every (Apart (remains n b)) (claim n bs)
  unfolding first_fit claim
  remains-Every [] b d e room = tt
  remains-Every (x ∷ xs) b d e room = elim (Bool-cases (fits n x)) [
    | inl f ↦
        let same : x ≡ b = ground arith in
        rw (f, same)
          (remains-Apart b room, Every-Inside xs b (remains n b) (ground arith) (rw (← same) d.1))
    | inr f ↦
        let later : first_fit n xs ≡ some b = ground arith in
        let apart : Apart x b = Every-first_fit (Apart x) n xs d.1 later in
        rw f (ground arith, remains-Every xs b d.2 later room)
  ]

  -- An allocation keeps every block aligned, in range and apart from the others.
  pub allocated-Disjoint :
      (bs : List Block) (b : Block)
      → Disjoint lo hi bs
      → first_fit n bs ≡ some b
      → Disjoint lo hi (allocated n b bs)
  unfolding allocated left_over
  allocated-Disjoint bs b d e = elim (Bool-cases (leb (n + 32) b.capacity)) [
    | inl f ↦
        let r : InRange lo hi b =
          Every-first_fit (InRange lo hi) n bs (Disjoint-InRange lo hi bs d) e in
        rw f (ground arith, remains-Every bs b d e (ground arith), claim-Disjoint bs d)
    | inr f ↦ rw f (claim-Disjoint bs d)
  ]

total-claim :
    (n : ℕ) (bs : List Block) (b : Block)
    → first_fit n bs ≡ some b
    → total (claim n bs) + b.capacity ≡ total bs + (taken n b).capacity
unfolding first_fit claim
total-claim n [] b e = cc
total-claim n (x ∷ xs) b e = elim (Bool-cases (fits n x)) [
  | inl f ↦ let same : x ≡ b = ground arith in rw (f, same) (omega arith)
  | inr f ↦ rw f (omega (arith, total-claim n xs b (ground arith)))
]

-- A split loses 16 bytes: they belong to no block afterwards.
pub total-allocated :
    (n : ℕ) (bs : List Block) (b : Block)
    → first_fit n bs ≡ some b
    → total (allocated n b bs) + (if leb (n + 32) b.capacity then 16 else 0) ≡ total bs
unfolding allocated left_over taken
total-allocated n bs b e = ground (arith, total-claim n bs b e)
