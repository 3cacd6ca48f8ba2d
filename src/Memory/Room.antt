-- ===== src/Memory/Room.antt =====
-- Whether a heap has room, and which of its blocks are in use, across an allocation.
use rpiosv.Base.{
  ℕ, ◌+◌, ◌≤◌, ◌≡◌, ◌⊎◌, refl, Bool, true, false, ◌&&◌, ◌||◌, some, List, [], ◌∷◌, ◌==◌, Addr,
  arith, Bool-cases, inl, inr,
}
use rpiosv.Memory.Blocks.{
  Block, Apart, Every, Disjoint, fits, first_fit, taken, left_over, claim, allocated,
}
use rpiosv.Memory.Claim.{Every-first_fit}

-- A block fits `n` bytes.
unfoldable pub roomy : ℕ → List Block → Bool
roomy n [] = false
roomy n (b ∷ bs) = fits n b || roomy n bs

-- A block in use stands at `a`.
unfoldable pub held : Addr → List Block → Bool
held a [] = false
held a (b ∷ bs) = b.used && (b.addr == a) || held a bs

pub roomy-le : (n m : ℕ) (bs : List Block) → n ≤ m → roomy m bs ≡ true → roomy n bs ≡ true
unfolding roomy fits
roomy-le n m [] h r = r
roomy-le n m (b ∷ bs) h r = ground (arith, roomy-le n m bs h)

pub roomy-first_fit :
    (n : ℕ) (bs : List Block) → roomy n bs ≡ true → (b : Block) × (first_fit n bs ≡ some b)
unfolding roomy first_fit
roomy-first_fit n [] r = absurd (ground (arith, r))
roomy-first_fit n (b ∷ bs) r = elim (Bool-cases (fits n b)) [
  | inl f ↦ (b, rw f refl)
  | inr f ↦ let (c, e) = roomy-first_fit n bs (ground (arith, r, f)) in (c, rw f e)
]

-- The block that is taken is split, or another one is large enough.
roomy-claim :
    (n c : ℕ) (bs : List Block) (b : Block)
    → roomy (n + 32 + c) bs ≡ true
    → first_fit n bs ≡ some b
    → (n + 32 + c ≤ b.capacity) ⊎ (roomy c (claim n bs) ≡ true)
unfolding roomy first_fit claim fits
roomy-claim n c [] b r e = absurd (ground (arith, r))
roomy-claim n c (x ∷ xs) b r e = elim (Bool-cases (fits n x)) [
  | inl f ↦ elim (Bool-cases (fits (n + 32 + c) x)) [
    | inl g ↦ inl (ground arith)
    | inr g ↦ inr (ground (arith, roomy-le c (n + 32 + c) xs (omega arith)))
  ]
  | inr f ↦ elim (roomy-claim n c xs b (ground arith) (ground arith)) [
    | inl h ↦ inl h
    | inr h ↦ inr (ground arith)
  ]
]

pub roomy-allocated :
    (n c : ℕ) (bs : List Block) (b : Block)
    → roomy (n + 32 + c) bs ≡ true
    → first_fit n bs ≡ some b
    → roomy c (allocated n b bs) ≡ true
unfolding roomy allocated left_over fits
roomy-allocated n c bs b r e = elim (roomy-claim n c bs b r e) [
  | inl h ↦ ground arith
  | inr h ↦ ground arith
]

held-Apart : (b : Block) (bs : List Block) → Every (Apart b) bs → held b.addr bs ≡ false
unfolding held
held-Apart b [] h = refl
held-Apart b (x ∷ xs) h = ground (arith, held-Apart b xs h.1)

-- The block that is taken was not in use.
pub held-first_fit :
    (lo hi n : ℕ) (bs : List Block) (b : Block)
    → Disjoint lo hi bs
    → first_fit n bs ≡ some b
    → held b.addr bs ≡ false
unfolding held first_fit fits
held-first_fit lo hi n [] b d e = cc
held-first_fit lo hi n (x ∷ xs) b d e = elim (Bool-cases (fits n x)) [
  | inl f ↦ ground (arith, held-Apart x xs d.1)
  | inr f ↦
      let later : first_fit n xs ≡ some b = ground arith in
      let apart : Apart x b = Every-first_fit (Apart x) n xs d.1 later in
      ground (arith, held-first_fit lo hi n xs b d.2 later)
]

-- It is in use afterwards, and so is what was in use before.
held-claim :
    (n a : ℕ) (bs : List Block) (b : Block)
    → first_fit n bs ≡ some b
    → (held b.addr (claim n bs) ≡ true) × (held a bs ≡ true → held a (claim n bs) ≡ true)
unfolding held first_fit claim taken fits
held-claim n a [] b e = cc
held-claim n a (x ∷ xs) b e = elim (Bool-cases (fits n x)) [
  | inl f ↦ (ground arith, λ h. ground arith)
  | inr f ↦
      let rest = held-claim n a xs b (ground arith) in
      (ground (arith, rest.0), λ h. ground (arith, rest.1))
]

pub held-allocated :
    (n a : ℕ) (bs : List Block) (b : Block)
    → first_fit n bs ≡ some b
    → (held b.addr (allocated n b bs) ≡ true)
      × (held a bs ≡ true → held a (allocated n b bs) ≡ true)
unfolding held allocated left_over
held-allocated n a bs b e =
    let kept = held-claim n a bs b e in (ground (arith, kept.0), λ h. ground (arith, kept.1 h))
