-- ===== src/Base/Mixing.antt =====
-- `^` can be undone on either side, and `|` after a shift is a sum.
use Prim.Native.Nat.{ℕ, zero, suc, ◌+◌, ◌-◌, ◌*◌, ◌/◌, ◌%◌, ◌<◌, bit_or, bit_xor, differ}
use mathlib.Core.Path.{◌≡◌, ap, ◌∙◌}
use native.Mathlib.Omega.{arith}
use rpiosv.Base.Bits.{or_digit, xor_digit, bit_or-zero}

differ-distance : (a b : ℕ) → differ a b ≡ (a - b) + (b - a)
differ-distance zero b = omega arith
differ-distance (suc a) zero = omega arith
differ-distance (suc a) (suc b) = differ-distance a b ∙ omega arith

xor-left_below : (bound x y z : ℕ) → x < bound → y < bound → bit_xor x z ≡ bit_xor y z → x ≡ y
xor-left_below zero x y z hx hy e = absurd (omega arith)
xor-left_below (suc zero) x y z hx hy e = omega arith
xor-left_below (suc (suc bound)) x y z hx hy e =
    let dx = differ-distance (x % 2) (z % 2) in
    let dy = differ-distance (y % 2) (z % 2) in
    let high : bit_xor (x / 2) (z / 2) ≡ bit_xor (y / 2) (z / 2) =
      omega (arith, e, xor_digit x z, xor_digit y z, dx, dy) in
    let rest =
      xor-left_below (suc bound) (x / 2) (y / 2) (z / 2) (omega arith) (omega arith) high in
    omega (arith, e, xor_digit x z, xor_digit y z, dx, dy, high, rest)

xor-right_below : (bound x y z : ℕ) → x < bound → y < bound → bit_xor z x ≡ bit_xor z y → x ≡ y
xor-right_below zero x y z hx hy e = absurd (omega arith)
xor-right_below (suc zero) x y z hx hy e = omega arith
xor-right_below (suc (suc bound)) x y z hx hy e =
    let dx = differ-distance (z % 2) (x % 2) in
    let dy = differ-distance (z % 2) (y % 2) in
    let high : bit_xor (z / 2) (x / 2) ≡ bit_xor (z / 2) (y / 2) =
      omega (arith, e, xor_digit z x, xor_digit z y, dx, dy) in
    let rest =
      xor-right_below (suc bound) (x / 2) (y / 2) (z / 2) (omega arith) (omega arith) high in
    omega (arith, e, xor_digit z x, xor_digit z y, dx, dy, high, rest)

pub bit_xor-left : (x y z : ℕ) → bit_xor x z ≡ bit_xor y z → x ≡ y
bit_xor-left x y z e = xor-left_below (suc (x + y)) x y z (omega arith) (omega arith) e

pub bit_xor-right : (x y z : ℕ) → bit_xor z x ≡ bit_xor z y → x ≡ y
bit_xor-right x y z e = xor-right_below (suc (x + y)) x y z (omega arith) (omega arith) e

-- One binary digit of a sum by `|`, where the left side is even.
or_step : (x b : ℕ) → bit_or (x * 2) b ≡ bit_or x (b / 2) * 2 + b % 2
or_step x b =
    let half : x * 2 / 2 ≡ x = omega arith in
    omega (arith, or_digit (x * 2) b, ap (λ t. bit_or t (b / 2)) half)

pub or_nibble : (x b : ℕ) → bit_or (x * 16) b ≡ bit_or x (b / 16) * 16 + b % 16
or_nibble x b =
    let s1 = ap (λ t. bit_or t b) {x = x * 16} {y = x * 8 * 2} (omega arith) ∙ or_step (x * 8) b in
    let s2 =
      ap (λ t. bit_or t (b / 2)) {x = x * 8} {y = x * 4 * 2} (omega arith)
      ∙ or_step (x * 4) (b / 2) in
    let s3 =
      ap (λ t. bit_or t (b / 2 / 2)) {x = x * 4} {y = x * 2 * 2} (omega arith)
      ∙ or_step (x * 2) (b / 2 / 2) in
    let s4 = or_step x (b / 2 / 2 / 2) in
    let last : b / 2 / 2 / 2 / 2 ≡ b / 16 = omega arith in
    omega (arith, s1, s2, s3, s4, ap (λ t. bit_or x t) last)

-- `(x << 8) | b` for a byte `b`.
pub bit_or-shift : (x b : ℕ) → b < 256 → bit_or (x * 256) b ≡ x * 256 + b
bit_or-shift x b h =
    let s1 =
      ap (λ t. bit_or t b) {x = x * 256} {y = x * 16 * 16} (omega arith) ∙ or_nibble (x * 16) b in
    let s2 = or_nibble x (b / 16) in
    let last : b / 16 / 16 ≡ 0 = omega arith in
    omega (arith, s1, s2, ap (λ t. bit_or x t) last, bit_or-zero x)
