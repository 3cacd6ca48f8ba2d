-- ===== src/Stdlib/Copy.antt =====
-- `mcpy` and `mzero` as maps of memory.
use rpiosv.Base.{
  ℕ, zero, suc, ◌+◌, ◌-◌, ◌≤◌, ◌≡◌, ◌∙◌, ◌⊎◌, inl, inr, Bool, true, false, ◌&&◌, ltb, leb, ◌==◌,
  if◌then◌else◌, Addr, update, arith, Bool-cases,
}
use rpiosv.Stdlib.{mcpy, mzero}

-- `p` lies in the area of `n` bytes from `a` on.
abbrev pub within : (a n p : Addr) → Bool
within a n p = leb a p && ltb p (a + n)

other_place :
    (dest src n p : ℕ)
    → (dest ≤ src) ⊎ (src + suc n ≤ dest)
    → within (suc dest) n p ≡ true
    → (src + (p - dest) == dest) ≡ false
other_place dest src n p (inl h) w = ground (arith, h, w)
other_place dest src n p (inr h) w = ground (arith, h, w)

-- One round of `mcpy`, and the rest of it.
copy_step :
    (dest src n : ℕ) (m : Addr → ℕ)
    → (dest ≤ src) ⊎ (src + suc n ≤ dest)
    → (p : Addr)
    → (if within (suc dest) n p
        then update m dest (m src) (suc src + (p - suc dest))
        else update m dest (m src) p)
      ≡ (if within dest (suc n) p then m (src + (p - dest)) else m p)
copy_step dest src n m apart p = elim (Bool-cases (p == dest)) [
  | inl e ↦
      let here : p ≡ dest = ground arith in
      let at : src + (p - dest) ≡ src = omega (arith, here) in rw at (ground (arith, here))
  | inr e ↦ elim (Bool-cases (within (suc dest) n p)) [
    | inl w ↦
        let at : suc src + (p - suc dest) ≡ src + (p - dest) = ground (arith, w) in
        let w' : within dest (suc n) p ≡ true = ground (arith, w) in
        let other : (src + (p - dest) == dest) ≡ false = other_place dest src n p apart w in
        rw (w, w', at, other)
    | inr w ↦ let w' : within dest (suc n) p ≡ false = ground (arith, w, e) in rw (w, w', e)
  ]
]

-- `mcpy` copies the source as it was, and nothing else changes, when the destination begins at the
-- source or before it, or after its end.
pub mcpy-within :
    (dest src n : ℕ) (m : Addr → ℕ)
    → (dest ≤ src) ⊎ (src + n ≤ dest)
    → (p : Addr) → mcpy dest src n m p ≡ (if within dest n p then m (src + (p - dest)) else m p)
unfolding mcpy
mcpy-within dest src zero m apart p = let w : within dest 0 p ≡ false = ground arith in rw w
mcpy-within dest src (suc n) m apart p =
    let apart' : (suc dest ≤ suc src) ⊎ (suc src + n ≤ suc dest) = elim apart [
      | inl h ↦ inl (omega (arith, h))
      | inr h ↦ inr (omega (arith, h))
    ] in
    mcpy-within (suc dest) (suc src) n (update m dest (m src)) apart' p
    ∙ copy_step dest src n m apart p

-- `mzero` clears its area and nothing else.
pub mzero-within :
    (dest n : ℕ) (m : Addr → ℕ) (p : Addr) → mzero dest n m p ≡ (if within dest n p then 0 else m p)
unfolding mzero
mzero-within dest zero m p = let w : within dest 0 p ≡ false = ground arith in rw w
mzero-within dest (suc n) m p = mzero-within (suc dest) n (update m dest 0) p ∙ ground arith
