-- ===== src/Uart/Baud.antt =====
-- The divisors of the baud rate.
use rpiosv.Base.{ℕ, ◌+◌, ◌*◌, ◌/◌, ◌%◌, ◌≤◌, ◌<◌, ◌≡◌, ◌∙◌, ◌⊎◌, inl, inr, ap, arith}
use native.Mathlib.Nat.{mod-lt, mod-add-div}
use rpiosv.Uart.{int_div, frac_div}

-- The bounds for a whole part `q`, a remainder `r`, and a quotient `f` that is halved to `d`.
nearest :
    (c b q r f d m k : ℕ)
    → r + b * 16 * q ≡ c
    → m + b * f ≡ r * 8
    → m < b
    → 2 * d ≡ f + k
    → (k ≡ 0) ⊎ (k ≡ 1)
    → (8 * c ≤ 2 * b * (64 * q + d) + b) × (2 * b * (64 * q + d) ≤ 8 * c + b)
nearest c b q r f d m k whole part rest half h =
    let doubled : b * (2 * d) ≡ b * (f + k) = ap (λ (t : ℕ). b * t) half in
    elim h [
      | inl z ↦
          let e : b * (2 * d) ≡ b * (f + 0) = doubled ∙ ap (λ (t : ℕ). b * (f + t)) z in
          (grind arith, grind arith)
      | inr z ↦
          let e : b * (2 * d) ≡ b * (f + 1) = doubled ∙ ap (λ (t : ℕ). b * (f + t)) z in
          (grind arith, grind arith)
    ]

-- In 64ths of the divisor: the quotient by 16 times the baud rate, rounded to the nearest.
pub frac_div-nearest :
    (uart_clock baud : ℕ)
    → 0 < baud
    → (8 * uart_clock ≤ 2 * baud * (64 * int_div uart_clock baud + frac_div uart_clock baud) + baud)
      × (2 * baud * (64 * int_div uart_clock baud + frac_div uart_clock baud)
          ≤ 8 * uart_clock + baud)
unfolding int_div frac_div
frac_div-nearest c b pos =
    let q = c / (b * 16) in
    let r = c % (b * 16) in
    let f = r * 8 / b in
    let whole = mod-add-div c (b * 16) in
    let part = mod-add-div (r * 8) b in
    let rest = mod-lt (r * 8) pos in
    nearest c b q r f (f / 2 + f % 2) (r * 8 % b) (f % 2) whole part rest (omega arith)
      (ground arith)
