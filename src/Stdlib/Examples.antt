-- ===== src/Stdlib/Examples.antt =====
-- The theorems on src/stdlib.c at some numbers and areas, and runs of `atoi`.
use rpiosv.Base.{◌-◌, ◌≡◌, ◌+◌, ◌≤◌, ℕ, List, length, refl, some, [], ◌∷◌, get_or, Addr, arith}
use rpiosv.Base.Int.{negsuc}
use rpiosv.Stdlib.{is_zero_int, magnitude, itoa, atoi}
use rpiosv.Stdlib.Itoa.{Printed, itoa-Printed}
use rpiosv.Stdlib.Shown.{IsText, shown, numeral, itoa-shown}
use rpiosv.Stdlib.Bound.{itoa-overflows}

itoa-Printed_example : Printed (negsuc 2016) 10 (λ k. 0)
itoa-Printed_example =
    itoa-Printed (negsuc 2016) 10 (λ k. 0) (omega arith) (λ e. ground (arith, e)) (omega arith)
      (omega arith)

itoa-shown_example :
    (text : ℕ → ℕ) × (itoa (negsuc 2016) 10 (λ k. 0) ≡ some text)
    × IsText 0 (shown (negsuc 2016) 10) text
itoa-shown_example = itoa-shown (negsuc 2016) 10 (λ k. 0) (omega arith) (omega arith) (omega arith)

-- The text "-2017".
shown_run : shown (negsuc 2016) 10 ≡ 45 ∷ 50 ∷ 48 ∷ 49 ∷ 55 ∷ []
unfolding shown numeral magnitude is_zero_int
shown_run = refl

itoa-overflows_example :
    (text : ℕ → ℕ) × (s : List ℕ) × (itoa (negsuc 0) 2 (λ k. 0) ≡ some text)
    × IsText 0 s text
    × (35 ≤ length s + 1)
itoa-overflows_example = itoa-overflows 0 (λ k. 0) (omega arith)

-- The text 12 at the address 100: the first digit is left out.
abbrev twelve : Addr → ℕ
twelve a = get_or (49 ∷ 50 ∷ []) (a - 100) 0

atoi_run : atoi 5 twelve 100 ≡ some 2
unfolding atoi
atoi_run = refl
