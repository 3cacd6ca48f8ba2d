-- ===== src/Uart/Text.antt =====
-- `uart_puts` on a terminated text.
use rpiosv.Base.{
  ℕ, zero, suc, ◌+◌, ◌≤◌, ◌<◌, ◌≡◌, ◌∙◌, refl, sym, ap, subst, false, some, List, [], ◌∷◌, ◌++◌,
  ◌==◌, arith, length, length-append, append_assoc, append-nil, Addr,
}
use rpiosv.Mmio.{ready, poll-ready}
use rpiosv.Stdlib.Shown.{IsText}
use rpiosv.Uart.{Uart, uart_putc, puts_loop, uart_puts, transmit_full}

-- The UART after it took the characters of `s`.
pub record Took (s : List ℕ) (u u' : Uart) : Type 0 where
  pub wrote : u'.written ≡ u.written ++ s
  pub left : ready transmit_full u'.flags + length s ≡ ready transmit_full u.flags
  pub kept : u'.received ≡ u.received

pub uart_putc-Took :
    (c : ℕ) (u : Uart)
    → 0 < ready transmit_full u.flags
    → (u' : Uart) × (uart_putc c u ≡ some u') × Took (c ∷ []) u u'
unfolding uart_putc
uart_putc-Took c u h =
    let (rest, polled, counted) = poll-ready transmit_full u.flags h in
    (
      record u { flags = rest; written = u.written ++ (c ∷ []) },
      rw polled,
      record { wrote = refl; left = omega (arith, counted); kept = refl },
    )

pub Took-append :
    {s t : List ℕ} {u u' u'' : Uart} → Took s u u' → Took t u' u'' → Took (s ++ t) u u''
Took-append {s} {t} {u} {u'} {u''} a b = record {
  wrote = b.wrote ∙ ap (λ x. x ++ t) a.wrote ∙ append_assoc u.written s t;
  left = omega (arith, a.left, b.left, length-append s t);
  kept = b.kept ∙ a.kept;
}

pub puts_loop-Took :
    (fuel : ℕ) (s : List ℕ) (text : Addr → ℕ) (str : Addr) (u : Uart)
    → IsText str s text
    → length s < fuel
    → length s ≤ ready transmit_full u.flags
    → (u' : Uart) × (puts_loop fuel text str u ≡ some u') × Took s u u'
unfolding puts_loop
puts_loop-Took zero s text str u is f h = absurd (omega arith)
puts_loop-Took (suc fuel) [] text str u is f h =
    (u, rw is, record { wrote = sym (append-nil u.written); left = omega arith; kept = refl })
puts_loop-Took (suc fuel) (c ∷ s) text str u is f h =
    let more : (text str == 0) ≡ false = ground (arith, is) in
    let (v, put, first) = uart_putc-Took (text str) u (omega arith) in
    let (u', rest, later) =
      puts_loop-Took fuel s text (suc str) v is.2 (omega arith) (omega (arith, first.left)) in
    let took : Took (text str ∷ s) u u' = Took-append first later in
    (u', rw (more, put, rest), subst (λ x. Took (x ∷ s) u u') is.0 took)

pub ready-length : (mask : ℕ) (reads : List ℕ) → ready mask reads ≤ length reads
unfolding ready
ready-length mask [] = omega arith
ready-length mask (s ∷ reads) = ground (arith, ready-length mask reads)

-- `uart_puts` writes the characters of a terminated text, in order, if as many reads of the flags
-- find the transmitter free.
pub uart_puts-Took :
    (s : List ℕ) (text : Addr → ℕ) (str : Addr) (u : Uart)
    → IsText str s text
    → length s ≤ ready transmit_full u.flags
    → (u' : Uart) × (uart_puts text str u ≡ some u') × Took s u u'
unfolding uart_puts
uart_puts-Took s text str u is h =
    puts_loop-Took (suc (length u.flags)) s text str u is
      (omega (arith, ready-length transmit_full u.flags)) h
