-- ===== src/Stdlib/Bound.antt =====
-- How long the text of a number is, against the 33 characters of `intbuf`.
use rpiosv.Base.{
  ℕ, zero, suc, ◌+◌, ◌-◌, ◌*◌, ◌/◌, ◌%◌, ◌^◌, ◌<◌, ◌≤◌, ◌≡◌, true, false, ◌==◌, List, [], ◌∷◌,
  length, length-append, some, arith, Bool-cases, inl, inr,
}
use native.Mathlib.Nat.{mod-add-div}
use rpiosv.Base.Int.{ℤ, pos, negsuc}
use rpiosv.Stdlib.{itoa_fuel, itoa}
use rpiosv.Stdlib.Itoa.{InInt, negative, digits_of, mark_chars}
use rpiosv.Stdlib.Shown.{IsText, digit, numeral, shown, itoa-shown}

quotient-lt : (base i p : ℕ) → 8 ≤ base → i < 8 * p → i / base < p
quotient-lt base i p lo h =
    let whole = mod-add-div i base in
    let more : 8 * (i / base) ≤ base * (i / base) = grind arith in omega (arith, whole, more)

-- A number below 8 ^ k has at most k digits in a base from 8 on.
length-numeral-le :
    (fuel base i k : ℕ) (s : List ℕ)
    → 8 ≤ base
    → i < 8 ^ k
    → length (numeral fuel base i s) ≤ length s + k
unfolding numeral
length-numeral-le zero base i k s lo h = omega arith
length-numeral-le (suc fuel) base i zero s lo h =
    let z : (i == 0) ≡ true = ground (arith, h) in rw z (omega arith)
length-numeral-le (suc fuel) base i (suc k) s lo h =
    let smaller : i / base < 8 ^ k = quotient-lt base i (8 ^ k) lo (omega (arith, h)) in
    let rest = length-numeral-le fuel base (i / base) k (digit (i % base) ∷ s) lo smaller in
    elim (Bool-cases (i == 0)) [ inl z ↦ rw z (omega arith) | inr nz ↦ rw nz (omega (arith, rest)) ]

positive_pow : (k : ℕ) → 0 < 2 ^ k
positive_pow zero = omega arith
positive_pow (suc k) = omega (arith, positive_pow k)

-- The digits stand in front of what there is.
le-length-numeral : (fuel base i : ℕ) (s : List ℕ) → length s ≤ length (numeral fuel base i s)
unfolding numeral
le-length-numeral zero base i s = omega arith
le-length-numeral (suc fuel) base i s =
    ground (arith, le-length-numeral fuel base (i / base) (digit (i % base) ∷ s))

-- A number from 2 ^ k on has more than k digits in base 2.
lt-length-numeral :
    (fuel i k : ℕ) (s : List ℕ) → i < fuel → 2 ^ k ≤ i → length s + k < length (numeral fuel 2 i s)
unfolding numeral
lt-length-numeral zero i k s f h = absurd (omega arith)
lt-length-numeral (suc fuel) i zero s f h =
    let nz : (i == 0) ≡ false = ground (arith, h) in
    let rest = le-length-numeral fuel 2 (i / 2) (digit (i % 2) ∷ s) in rw nz (omega (arith, rest))
lt-length-numeral (suc fuel) i (suc k) s f h =
    let some_i : 0 < i = omega (arith, h, positive_pow k) in
    let nz : (i == 0) ≡ false = ground (arith, some_i) in
    let rest =
      lt-length-numeral fuel (i / 2) k (digit (i % 2) ∷ s) (omega (arith, f, some_i))
        (omega (arith, h)) in
    rw nz (omega (arith, rest))

digits_of-bound : (num : ℤ) (base : ℕ) → InInt num → digits_of num base < 2 ^ 32
digits_of-bound (pos n) base h = omega (arith, h)
digits_of-bound (negsuc n) base h = ground (arith, h)

shown-fits : (num : ℤ) (base : ℕ) → InInt num → 8 ≤ base → length (shown num base) + 1 ≤ 33
unfolding shown
shown-fits num base h lo = elim (Bool-cases (digits_of num base == 0)) [
  | inl z ↦ rw z (omega arith)
  | inr nz ↦
      let bounded = digits_of-bound num base h in
      let digits =
        length-numeral-le itoa_fuel base (digits_of num base) 11 [] lo (omega (arith, bounded)) in
      let sign = negative num base in
      let marks : length (mark_chars base sign) ≤ 3 = ground arith in
      let parts =
        length-append (mark_chars base sign) (numeral itoa_fuel base (digits_of num base) []) in
      rw nz (omega (arith, digits, marks, parts))
]

shown-overflows : (n : ℕ) → n < 2 ^ 31 → 35 ≤ length (shown (negsuc n) 2) + 1
unfolding shown
shown-overflows n h =
    let digits =
      lt-length-numeral itoa_fuel (2 ^ 32 - (n + 1)) 31 [] (omega arith) (omega (arith, h)) in
    let nz : (2 ^ 32 - (n + 1) == 0) ≡ false = ground (arith, h) in rw nz (omega (arith, digits))

-- In a base from 8 to 36 the text that `itoa` returns for an `int` fits into the 33 characters of
-- `intbuf`, with its terminator.
pub itoa-fits :
    (num : ℤ) (base : ℕ) (intbuf : ℕ → ℕ)
    → InInt num
    → 8 ≤ base
    → base ≤ 36
    → (text : ℕ → ℕ) × (s : List ℕ) × (itoa num base intbuf ≡ some text)
      × IsText 0 s text
      × (length s + 1 ≤ 33)
itoa-fits num base intbuf h lo hi =
    let (text, returns, is) = itoa-shown num base intbuf h (omega (arith, lo)) hi in
    (text, shown num base, returns, is, shown-fits num base h lo)

-- In base 2 the text that `itoa` returns for a negative `int` has, with its terminator, at least 35
-- characters: it runs over the end of `intbuf`.
pub itoa-overflows :
    (n : ℕ) (intbuf : ℕ → ℕ)
    → n < 2 ^ 31
    → (text : ℕ → ℕ) × (s : List ℕ) × (itoa (negsuc n) 2 intbuf ≡ some text)
      × IsText 0 s text
      × (35 ≤ length s + 1)
itoa-overflows n intbuf h =
    let (text, returns, is) = itoa-shown (negsuc n) 2 intbuf h (omega arith) (omega arith) in
    (text, shown (negsuc n) 2, returns, is, shown-overflows n h)
