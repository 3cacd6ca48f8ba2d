-- ===== src/SysTimer/Examples.antt =====
-- The theorem on `udelay` at a counter that wraps.
use rpiosv.Base.{◌+◌, ◌-◌, ◌^◌, ◌≡◌, some, [], ◌∷◌, ◌++◌, arith}
use rpiosv.SysTimer.{udelay}
use rpiosv.SysTimer.Elapsed.{low_words, udelay-elapsed}

udelay-elapsed_example :
    udelay 100 (
      low_words (
        (2 ^ 32 - 50) ∷ ((2 ^ 32 - 10) ∷ (2 ^ 32 + 20) ∷ [])
        ++ ((2 ^ 32 + 51) ∷ (2 ^ 32 + 60) ∷ [])))
    ≡ some (low_words ((2 ^ 32 + 60) ∷ []))
udelay-elapsed_example =
    udelay-elapsed 100 (2 ^ 32 - 50) (2 ^ 32 + 51) ((2 ^ 32 + 60) ∷ []) (omega arith) (omega arith)
      (omega arith) ((2 ^ 32 - 10) ∷ (2 ^ 32 + 20) ∷ []) (omega arith)
