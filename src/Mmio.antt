-- ===== src/Mmio.antt =====
-- Accesses to device registers: `mmio_write` and `delay` of src/utils.h as events, and the
-- loops that wait on a status register, over the values that its reads give.
use rpiosv.Base.{
  ℕ, ◌+◌, ◌<◌, ◌≡◌, Option, none, some, List, [], ◌∷◌, ◌++◌, ◌==◌, if◌then◌else◌, arith, bit_and,
  Bool-cases, inl, inr,
}

-- What a device sees, in order.
pub data Event : Type 0 where
  write : (reg value : ℕ) → Event
  wait : (count : ℕ) → Event

abbrev pub Trace : Type 0
Trace = List Event

unfoldable pub mmio_write : (reg value : ℕ) → Trace → Trace
mmio_write reg value t = t ++ (write reg value ∷ [])

unfoldable pub delay : (count : ℕ) → Trace → Trace
delay count t = t ++ (wait count ∷ [])

-- `while (mmio_read(status) & mask)`: the reads that are left after the loop. `none` stands for a
-- loop that has not ended.
unfoldable pub poll : (mask : ℕ) → (reads : List ℕ) → Option (List ℕ)
poll mask [] = none
poll mask (s ∷ rest) = if bit_and s mask == 0 then some rest else poll mask rest

-- How many of the reads end a wait.
unfoldable pub ready : (mask : ℕ) → List ℕ → ℕ
ready mask [] = 0
ready mask (s ∷ rest) = (if bit_and s mask == 0 then 1 else 0) + ready mask rest

pub poll-ready :
    (mask : ℕ) (reads : List ℕ)
    → 0 < ready mask reads
    → (rest : List ℕ) × (poll mask reads ≡ some rest) × (ready mask rest + 1 ≡ ready mask reads)
unfolding poll ready
poll-ready mask [] h = absurd (omega arith)
poll-ready mask (s ∷ reads) h = elim (Bool-cases (bit_and s mask == 0)) [
  | inl now ↦ (reads, rw now, rw now (omega arith))
  | inr busy ↦
      let (rest, left, counted) = poll-ready mask reads (ground arith) in
      (rest, rw (busy, left), rw busy (omega (arith, counted)))
]
