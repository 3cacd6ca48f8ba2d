-- ===== src/Base/Bits.antt =====
-- The operations on bits that the C code uses, as arithmetic.
use Prim.Native.Nat.{
  ℕ, zero, suc, ◌+◌, ◌-◌, ◌*◌, ◌/◌, ◌%◌, ◌≤◌, ◌<◌, min, max, bit_and, bit_or, bit_xor, digits,
  bitwise, differ, bit_and-bitwise, bit_or-bitwise, bit_xor-bitwise,
}
use mathlib.Core.Path.{◌≡◌, refl, ap, ◌∙◌}
use native.Mathlib.Omega.{arith}

-- The library's `bitwise` counts down from its first number. One round more changes nothing.
module _ (last : ℕ → ℕ) (digit : ℕ → ℕ → ℕ) where
  one_more : (k x y : ℕ) → x ≤ k → digits last digit (suc k) x y ≡ digits last digit k x y
  one_more zero zero y h = refl
  one_more (suc k) zero y h = refl
  one_more zero (suc x) y h = elim h [ ]
  one_more (suc k) (suc x) y h =
      ap (λ (t : ℕ). t * 2 + digit (suc x % 2) (y % 2))
        (one_more k (suc x / 2) (y / 2) (omega arith))

  spare : (extra k x y : ℕ) → x ≤ k → digits last digit (extra + k) x y ≡ digits last digit k x y
  spare zero k x y h = ap (λ (n : ℕ). digits last digit n x y) (omega arith)
  spare (suc extra) k x y h =
      ap (λ (n : ℕ). digits last digit n x y) {y = suc (extra + k)} (omega arith)
      ∙ one_more (extra + k) x y (omega arith)
      ∙ spare extra k x y h

  -- The lowest digit and the rest.
  module _ (even_out : (y : ℕ) → last y ≡ last (y / 2) * 2 + digit 0 (y % 2)) where
    peel :
        (x y : ℕ)
        → bitwise last digit x y ≡ bitwise last digit (x / 2) (y / 2) * 2 + digit (x % 2) (y % 2)
    peel zero y = even_out y
    peel (suc x) y =
        let h = suc x / 2 in
        let fuel : x - h + h ≡ x = omega arith in
        ap (λ (t : ℕ). t * 2 + digit (suc x % 2) (y % 2))
          (ap (λ (n : ℕ). digits last digit n h (y / 2)) (omega (arith, fuel))
            ∙ spare (x - h) h h (y / 2) (omega arith))

pub and_digit : (x y : ℕ) → bit_and x y ≡ bit_and (x / 2) (y / 2) * 2 + min (x % 2) (y % 2)
and_digit x y = simp bit_and-bitwise (peel (λ t. 0) min (λ t. omega arith) x y)

pub or_digit : (x y : ℕ) → bit_or x y ≡ bit_or (x / 2) (y / 2) * 2 + max (x % 2) (y % 2)
or_digit x y = simp bit_or-bitwise (peel (λ t. t) max (λ t. omega arith) x y)

pub xor_digit : (x y : ℕ) → bit_xor x y ≡ bit_xor (x / 2) (y / 2) * 2 + differ (x % 2) (y % 2)
xor_digit x y = simp bit_xor-bitwise (peel (λ t. t) differ (λ t. omega arith) x y)

differ-zero : (a : ℕ) → differ a 0 ≡ a
differ-zero zero = refl
differ-zero (suc a) = refl

differ-one : (a : ℕ) → a < 2 → differ a 1 ≡ 1 - a
differ-one zero h = refl
differ-one (suc zero) h = refl
differ-one (suc (suc a)) h = absurd (omega arith)

-- All three operations with 0 on the right, below a bound that falls by halves.
zeros_below : (bound x : ℕ) → x < bound → (bit_and x 0 ≡ 0) × (bit_or x 0 ≡ x) × (bit_xor x 0 ≡ x)
zeros_below zero x h = elim h [ ]
zeros_below (suc bound) zero h = (refl, refl, refl)
zeros_below (suc bound) (suc x) h =
    let half = zeros_below bound (suc x / 2) (omega arith) in
    (
      omega (arith, and_digit (suc x) 0, half.0),
      omega (arith, or_digit (suc x) 0, half.1),
      omega (arith, xor_digit (suc x) 0, half.2, differ-zero (suc x % 2)),
    )

pub bit_and-zero : (x : ℕ) → bit_and x 0 ≡ 0
bit_and-zero x = (zeros_below (suc x) x (omega arith)).0

pub bit_or-zero : (x : ℕ) → bit_or x 0 ≡ x
bit_or-zero x = (zeros_below (suc x) x (omega arith)).1

pub bit_xor-zero : (x : ℕ) → bit_xor x 0 ≡ x
bit_xor-zero x = (zeros_below (suc x) x (omega arith)).2

-- `x & 1`
pub bit_and-one : (x : ℕ) → bit_and x 1 ≡ x % 2
bit_and-one x = omega (arith, and_digit x 1, bit_and-zero (x / 2))

-- `x ^ 1` flips the lowest bit.
pub bit_xor-one : (x : ℕ) → bit_xor x 1 ≡ x / 2 * 2 + (1 - x % 2)
bit_xor-one x = omega (arith, xor_digit x 1, bit_xor-zero (x / 2), differ-one (x % 2))

-- `x & y` is at most `y`, below a bound on `x` and `y` that falls by halves.
and_below : (bound x y : ℕ) → x + y < bound → bit_and x y ≤ y
and_below zero x y h = elim h [ ]
and_below (suc bound) zero zero h = omega (arith, bit_and-zero 0)
and_below (suc bound) zero (suc y) h =
    let half = and_below bound 0 (suc y / 2) (omega arith) in
    omega (arith, and_digit 0 (suc y), half)
and_below (suc bound) (suc x) y h =
    let half = and_below bound (suc x / 2) (y / 2) (omega arith) in
    omega (arith, and_digit (suc x) y, half)

pub bit_and-le : (x y : ℕ) → bit_and x y ≤ y
bit_and-le x y = and_below (suc (x + y)) x y (omega arith)
