-- ===== src/Base/Masks.antt =====
-- The bit of a number that a power of two masks.
use Prim.Native.Nat.{ℕ, zero, suc, ◌*◌, ◌/◌, ◌%◌, ◌^◌, ◌<◌, bit_and}
use mathlib.Core.Path.{◌≡◌, ap, ◌∙◌}
use native.Mathlib.Omega.{arith}
use native.Mathlib.Nat.{pow-le-pow_right, pow-suc, mod-eq_of_lt}
use rpiosv.Base.Tests.{◌==◌}
use rpiosv.Base.Bits.{and_digit, bit_and-zero}

-- The bit `w` of `x`, by halving.
unfoldable pub bit_at : (w x : ℕ) → ℕ
bit_at zero x = x % 2
bit_at (suc w) x = bit_at w (x / 2)

double : (b w : ℕ) → b * 2 ^ suc w ≡ b * 2 ^ w * 2
double b w = grind (arith, pow-suc 2 w)

pub bit_and-bit_at : (w x : ℕ) → bit_and x (2 ^ w) ≡ bit_at w x * 2 ^ w
unfolding bit_at
bit_and-bit_at zero x = omega (arith, and_digit x 1, bit_and-zero (x / 2))
bit_and-bit_at (suc w) x =
    let half : 2 ^ suc w / 2 ≡ 2 ^ w = omega arith in
    omega (
      arith,
      and_digit x (2 ^ suc w),
      ap (bit_and (x / 2)) half,
      bit_and-bit_at w (x / 2),
      double (bit_at w (x / 2)) w,
    )

zero-bit_and : (fuel x : ℕ) → x < fuel → bit_and 0 x ≡ 0
zero-bit_and zero x h = absurd (omega arith)
zero-bit_and (suc zero) x h = ap (bit_and 0) {x = x} {y = 0} (omega arith) ∙ bit_and-zero 0
zero-bit_and (suc (suc fuel)) x h =
    omega (arith, and_digit 0 x, zero-bit_and (suc fuel) (x / 2) (omega arith))

-- The mask on the left.
pub bit_at-bit_and : (w x : ℕ) → bit_and (2 ^ w) x ≡ bit_at w x * 2 ^ w
unfolding bit_at
bit_at-bit_and zero x =
    omega (arith, and_digit 1 x, zero-bit_and (suc (x / 2)) (x / 2) (omega arith))
bit_at-bit_and (suc w) x =
    let half : 2 ^ suc w / 2 ≡ 2 ^ w = omega arith in
    omega (
      arith,
      and_digit (2 ^ suc w) x,
      ap (λ (t : ℕ). bit_and t (x / 2)) half,
      bit_at-bit_and w (x / 2),
      double (bit_at w (x / 2)) w,
    )

pow_positive : (k : ℕ) → 0 < 2 ^ k
pow_positive zero = omega arith
pow_positive (suc k) = omega (arith, pow_positive k)

pub bit_at-two : (w x : ℕ) → bit_at w x < 2
unfolding bit_at
bit_at-two zero x = omega arith
bit_at-two (suc w) x = bit_at-two w (x / 2)

zero_mask : (b w : ℕ) → b < 2 → (b * 2 ^ w == 0) ≡ (b == 0)
zero_mask zero w h = ground arith
zero_mask (suc zero) w h = ground (arith, pow_positive w)
zero_mask (suc (suc b)) w h = absurd (omega arith)

-- A mask that fits in `n` bits is not cut.
pub mask_fits : (w n : ℕ) → w < n → 2 ^ w % 2 ^ n ≡ 2 ^ w
mask_fits w n h =
    let more = pow-le-pow_right {n = 2} (omega arith) {i = suc w} {j = n} (omega (arith, h)) in
    let small : 2 ^ w < 2 ^ n = omega (arith, more, pow_positive w) in mod-eq_of_lt small

pub bit_and-zero_at : (w x : ℕ) → (bit_and x (2 ^ w) == 0) ≡ (bit_at w x == 0)
bit_and-zero_at w x = rw (bit_and-bit_at w x) (zero_mask (bit_at w x) w (bit_at-two w x))

pub zero_at-bit_and : (w x : ℕ) → (bit_and (2 ^ w) x == 0) ≡ (bit_at w x == 0)
zero_at-bit_and w x = rw (bit_at-bit_and w x) (zero_mask (bit_at w x) w (bit_at-two w x))
