-- ===== src/Interrupts/Irq/Pending.antt =====
-- Which interrupts `irq_is_pending` reports, by the bits of the three pending registers.
use rpiosv.Base.{
  ℕ, ◌<◌, ◌≡◌, refl, ap, Bool, true, false, not, ◌&&◌, ltb, leb, ◌-◌, ◌≤◌, bit_at, mask_fits,
  zero_at-bit_and, ◌==◌, if◌then◌else◌, null, arith, Bool-cases, inl, inr,
}
use rpiosv.Interrupts.Irq.{Irq, num_irqs, irq_is_basic, irq_is_gpu2, irq_is_gpu1, irq_is_pending}

-- The interrupt is pending and has a handler.
abbrev pub ready : Irq → ℕ → Bool
ready s j = irq_is_pending s j && not (s.handlers j == null)

-- The bit of the interrupt in its pending register: 32 in each of the first two, and the rest in
-- the basic one.
abbrev pub pending_bit : Irq → ℕ → ℕ
pending_bit s j =
    if ltb j 32
    then bit_at j s.irq_gpu_pending1
    else if ltb j 64
    then bit_at (j - 32) s.irq_gpu_pending2
    else bit_at (j - 64) s.irq_basic_pending

-- Its bit is set, and it has a handler.
abbrev pub raised : Irq → ℕ → Bool
raised s j = not (pending_bit s j == 0) && not (s.handlers j == null)

gpu1_pending : (s : Irq) (j : ℕ) → j < 32 → irq_is_pending s j ≡ not (pending_bit s j == 0)
unfolding irq_is_pending irq_is_basic irq_is_gpu2 irq_is_gpu1
gpu1_pending s j l =
    let whole = mask_fits j 32 l in
    let same = zero_at-bit_and j s.irq_gpu_pending1 in
    let (a, b, c) : (leb 64 j ≡ false) × (leb 32 j ≡ false) × (ltb j 32 ≡ true) =
      (ground (arith, l), ground (arith, l), ground (arith, l)) in
    rw (a, b, c, whole, same) refl

gpu2_pending : (s : Irq) (j : ℕ) → 32 ≤ j → j < 64 → irq_is_pending s j ≡ not (pending_bit s j == 0)
unfolding irq_is_pending irq_is_basic irq_is_gpu2 irq_is_gpu1
gpu2_pending s j l h =
    let whole = mask_fits (j - 32) 32 (omega (arith, l, h)) in
    let same = zero_at-bit_and (j - 32) s.irq_gpu_pending2 in
    let (a, b, c, d) : (leb 64 j ≡ false)
        × (leb 32 j ≡ true)
        × (ltb j 32 ≡ false)
        × (ltb j 64 ≡ true) =
      (ground (arith, h), ground (arith, l), ground (arith, l), ground (arith, h)) in
    rw (a, b, c, d, whole, same) (ground arith)

basic_pending :
    (s : Irq) (j : ℕ) → 64 ≤ j → j < num_irqs → irq_is_pending s j ≡ not (pending_bit s j == 0)
unfolding irq_is_pending irq_is_basic irq_is_gpu2 irq_is_gpu1
basic_pending s j l h =
    let whole = mask_fits (j - 64) 32 (omega (arith, l, h)) in
    let same = zero_at-bit_and (j - 64) s.irq_basic_pending in
    let (a, b, c, d) : (leb 64 j ≡ true)
        × (leb 32 j ≡ true)
        × (ltb j 32 ≡ false)
        × (ltb j 64 ≡ false) =
      (ground (arith, l), ground (arith, l), ground (arith, l), ground (arith, l)) in
    rw (a, b, c, d, whole, same) (ground arith)

-- The code's test agrees with the bits.
pub ready-raised : (s : Irq) (j : ℕ) → j < num_irqs → ready s j ≡ raised s j
ready-raised s j h =
    ap (λ b. b && not (s.handlers j == null))
      (elim (Bool-cases (ltb j 32)) [
        | inl e ↦ gpu1_pending s j (ground (arith, e))
        | inr e ↦ elim (Bool-cases (ltb j 64)) [
          | inl e' ↦ gpu2_pending s j (ground (arith, e)) (ground (arith, e'))
          | inr e' ↦ basic_pending s j (ground (arith, e')) h
        ]
      ])
