-- ===== src/Stdout.antt =====
-- `prntf` of src/stdout.c, `putc` and `puts`. A text is read from memory, at addresses. The
-- arguments are a list, of `int` values and of texts.
pub mod Pieces
pub mod Printing
mod Examples
use rpiosv.Base.{
  ℕ, zero, suc, ◌+◌, Option, none, some, List, [], ◌∷◌, ◌==◌, ◌>>=◌, if◌then◌else◌, Addr, length,
}
use rpiosv.Base.Int.{ℤ}
use rpiosv.Interrupts.Level.{Level, disabled, set_interrupt_level, interrupts_enabled}
use rpiosv.Stdlib.{itoa}
use rpiosv.Uart.{Uart, uart_putc, puts_loop}

-- What the functions work on: the buffer that `itoa` returns, and the UART.
pub record Output : Type 0 where
  pub intbuf : ℕ → ℕ
  pub uart : Uart

pub data Arg : Type 0 where
  number : ℤ → Arg
  string : Addr → Arg

-- `putc`, which passes the character on to the UART.
unfoldable pub putc : (c : ℕ) → Output → Option Output
putc c o = do u ← uart_putc c o.uart; some (record o { uart = u })

-- `puts`, a loop of its own that is that of `uart_puts`.
unfoldable pub puts : (text : Addr → ℕ) → (from : Addr) → Output → Option Output
puts text from o = do
  u ← puts_loop (suc (length o.uart.flags)) text from o.uart
  some (record o { uart = u })

-- `puts(itoa(num, base))`
unfoldable pub put_int : (num : ℤ) → (base : ℕ) → Output → Option Output
unfolding puts
put_int num base o = do buf ← itoa num base o.intbuf; puts buf 0 (record o { intbuf = buf })

-- `puts(itoa(va_arg(args, int), base))`. `none` stands for an argument that is missing or of
-- another type, where C leaves the behaviour open.
unfoldable pub put_number : (base : ℕ) → List Arg → Output → Option (List Arg × Output)
unfolding put_int
put_number base (number n ∷ rest) o = put_int n base o >>= λ o'. some (rest, o')
put_number base _ o = none

-- `puts(va_arg(args, char *))`
unfoldable pub put_string : (text : Addr → ℕ) → List Arg → Output → Option (List Arg × Output)
unfolding puts
put_string text (string p ∷ rest) o = puts text p o >>= λ o'. some (rest, o')
put_string text _ o = none

-- The `switch`: what a directive takes from the arguments, and prints.
unfoldable pub directive :
    (text : Addr → ℕ) → (c : ℕ) → List Arg → Output → Option (List Arg × Output)
unfolding putc put_number put_string
directive text c args o =
    if c == 37
    then (putc 37 o >>= λ o'. some (args, o'))
    else if c == 100
    then put_number 10 args o
    else if c == 120
    then put_number 16 args o
    else if c == 115
    then put_string text args o
    else some (args, o)

-- The loop over the format. A directive takes two characters of it. `none` stands, too, for a loop
-- that has not ended.
unfoldable pub prntf_loop :
    (fuel : ℕ) → (text : Addr → ℕ) → (fmt : Addr) → List Arg → Output → Option Output
unfolding directive
prntf_loop zero text fmt args o = none
prntf_loop (suc fuel) text fmt args o =
    let formatted = directive text (text (suc fmt)) args o >>= λ r.
    prntf_loop fuel text (suc (suc fmt)) r.0 r.1 in
    let plain = putc (text fmt) o >>= prntf_loop fuel text (suc fmt) args in
    if text fmt == 0 then some o else if text fmt == 37 then formatted else plain

-- The level is disabled while it prints, and set back.
pub prntf :
    (fuel : ℕ)
    → (text : Addr → ℕ) → (fmt : Addr) → List Arg
    → Level × Output
    → Option (Level × Output)
prntf fuel text fmt args (irq, o) = do
  o' ← prntf_loop fuel text fmt args o
  some (set_interrupt_level (interrupts_enabled irq) (set_interrupt_level disabled irq), o')
