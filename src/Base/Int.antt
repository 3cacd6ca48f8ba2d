-- ===== src/Base/Int.antt =====
-- C's `int` as an integer over the native numbers (the library's ℤ stands on the unary ℕ).
use Prim.Native.Nat.{ℕ, suc}
use mathlib.Core.Bool.{Bool, true, false}
use rpiosv.Base.Tests.{leb, ltb}

-- `negsuc n` is -(n + 1).
pub data ℤ : Type 0 where
  pos : ℕ → ℤ
  negsuc : ℕ → ℤ

-- `x + 1` and `x - 1`.
abbrev pub succ_ℤ : ℤ → ℤ
succ_ℤ (pos n) = pos (suc n)
succ_ℤ (negsuc n) = elim n [ ℕ.zero ↦ pos 0 | ℕ.suc k ↦ negsuc k ]

abbrev pub pred_ℤ : ℤ → ℤ
pred_ℤ (pos n) = elim n [ ℕ.zero ↦ negsuc 0 | ℕ.suc k ↦ pos k ]
pred_ℤ (negsuc n) = negsuc (suc n)

-- `x < 0`, `x > 0` and `x == 0`.
abbrev pub is_neg : ℤ → Bool
is_neg (pos n) = false
is_neg (negsuc n) = true

abbrev pub is_pos : ℤ → Bool
is_pos (pos n) = ltb 0 n
is_pos (negsuc n) = false

abbrev pub is_zero : ℤ → Bool
is_zero (pos n) = leb n 0
is_zero (negsuc n) = false
