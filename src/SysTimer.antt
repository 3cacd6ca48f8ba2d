-- ===== src/SysTimer.antt =====
-- `udelay` of src/sys_timer.c. The reads of the low word of the counter are a stream.
pub mod Elapsed
mod Examples
use rpiosv.Base.{ℕ, Option, none, some, List, [], ◌∷◌, ltb, if◌then◌else◌}
use rpiosv.Memory.{sub32}

-- The loop, with `x` computed last: the reads that are left. `none` stands for a loop that has not
-- ended.
unfoldable pub udelay_loop : (usecs curr x : ℕ) → (reads : List ℕ) → Option (List ℕ)
udelay_loop usecs curr x [] = if ltb x usecs then none else some []
udelay_loop usecs curr x (r ∷ reads) =
    if ltb x usecs then udelay_loop usecs curr (sub32 r curr) reads else some (r ∷ reads)

unfoldable pub udelay : (usecs : ℕ) → (reads : List ℕ) → Option (List ℕ)
unfolding udelay_loop
udelay usecs (curr ∷ r ∷ reads) = udelay_loop usecs curr (sub32 r curr) reads
udelay usecs _ = none
