-- ===== src/SysTimer/Elapsed.antt =====
-- `udelay` waits for the time that it is given.
use rpiosv.Base.{ℕ, ◌+◌, ◌-◌, ◌%◌, ◌^◌, ◌<◌, ◌≤◌, ◌≡◌, true, some, List, [], ◌∷◌, ◌++◌, ltb, arith}
use rpiosv.Memory.{sub32}
use rpiosv.SysTimer.{udelay_loop, udelay}

-- The low word of the counter at some times.
abbrev pub low_words : List ℕ → List ℕ
low_words [] = []
low_words (t ∷ ts) = t % 2 ^ 32 ∷ low_words ts

-- All of the times are less than `usecs` after `t0`.
abbrev pub Early : (usecs t0 : ℕ) → List ℕ → Type 0
Early usecs t0 [] = Unit
Early usecs t0 (t ∷ ts) = (t0 ≤ t) × (t < t0 + usecs) × Early usecs t0 ts

elapsed : (t0 t : ℕ) → t0 ≤ t → t < t0 + 2 ^ 32 → sub32 (t % 2 ^ 32) (t0 % 2 ^ 32) ≡ t - t0
elapsed t0 t h k = omega arith

udelay_loop-done :
    (usecs curr x : ℕ) (reads : List ℕ) → usecs ≤ x → udelay_loop usecs curr x reads ≡ some reads
unfolding udelay_loop
udelay_loop-done usecs curr x [] h = ground (arith, h)
udelay_loop-done usecs curr x (r ∷ reads) h = ground (arith, h)

module _ (usecs t0 t : ℕ) (after : List ℕ) (small : usecs < 2 ^ 32) (late : t0 + usecs ≤ t)
    (near : t < t0 + 2 ^ 32) where
  last_read :
      udelay_loop usecs (t0 % 2 ^ 32) (sub32 (t % 2 ^ 32) (t0 % 2 ^ 32)) (low_words after)
      ≡ some (low_words after)
  last_read =
      udelay_loop-done usecs (t0 % 2 ^ 32) (sub32 (t % 2 ^ 32) (t0 % 2 ^ 32)) (low_words after)
        (omega (arith, elapsed t0 t, late, near))

  udelay_loop-late :
      (x : ℕ) (before : List ℕ)
      → x < usecs
      → Early usecs t0 before
      → udelay_loop usecs (t0 % 2 ^ 32) x (low_words (before ++ (t ∷ after)))
        ≡ some (low_words after)
  unfolding udelay_loop
  udelay_loop-late x [] more early =
      let again : ltb x usecs ≡ true = ground arith in rw again last_read
  udelay_loop-late x (b ∷ before) more early =
      let again : ltb x usecs ≡ true = ground arith in
      let less : sub32 (b % 2 ^ 32) (t0 % 2 ^ 32) < usecs =
        omega (arith, elapsed t0 b, early.0, early.1, small) in
      rw again (udelay_loop-late (sub32 (b % 2 ^ 32) (t0 % 2 ^ 32)) before less early.2)

  -- `udelay` returns at the first read of the counter that is `usecs` or more after its first one,
  -- also where the low word wraps in between. The read stays below 2 ^ 32 after the first one.
  pub udelay-elapsed :
      (before : List ℕ)
      → Early usecs t0 before
      → udelay usecs (low_words (t0 ∷ before ++ (t ∷ after))) ≡ some (low_words after)
  unfolding udelay
  udelay-elapsed [] early = last_read
  udelay-elapsed (b ∷ before) early =
      let less : sub32 (b % 2 ^ 32) (t0 % 2 ^ 32) < usecs =
        omega (arith, elapsed t0 b, early.0, early.1, small) in
      udelay_loop-late (sub32 (b % 2 ^ 32) (t0 % 2 ^ 32)) before less early.2
