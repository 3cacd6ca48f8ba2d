-- ===== src/Uart.antt =====
-- The UART of src/uart.c. Reads of its flag register and of its data register are two streams;
-- what is written to the data register is kept in order.
pub mod Text
pub mod Baud
mod Examples
use rpiosv.Base.{
  ℕ, zero, suc, ◌+◌, ◌*◌, ◌/◌, ◌%◌, ◌^◌, Bool, true, false, Option, none, some, List, [], ◌∷◌, ◌++◌,
  ◌==◌, ◌>>=◌, if◌then◌else◌, length, Addr,
}
use rpiosv.Mmio.{Trace, mmio_write, delay, poll}

abbrev pub uart0_base : ℕ
uart0_base = 0x3F201000

abbrev pub gpio_base : ℕ
gpio_base = 0x3F200000

-- The divisor of the clock for a baud rate, and its fraction in 64ths. The code computes them for
-- one clock and one rate, at which no product overflows.
pub int_div : (uart_clock baud : ℕ) → ℕ
int_div uart_clock baud = uart_clock / (baud * 16)

pub frac_div : (uart_clock baud : ℕ) → ℕ
frac_div uart_clock baud =
    let frac_div_2 = uart_clock % (baud * 16) * 8 / baud in frac_div_2 / 2 + frac_div_2 % 2

unfoldable pub uart_init : Trace → Trace
unfolding int_div frac_div mmio_write delay
uart_init t =
    let t1 = mmio_write (uart0_base + 0x30) 0 t in
    let t2 = delay 150 (mmio_write (gpio_base + 0x94) 0 t1) in
    let t3 = delay 150 (mmio_write (gpio_base + 0x98) (2 ^ 14 + 2 ^ 15) t2) in
    let t4 = mmio_write (gpio_base + 0x98) 0 t3 in
    let t5 = mmio_write (uart0_base + 0x44) 0x7FF t4 in
    let t6 = mmio_write (uart0_base + 0x24) (int_div 48000000 115200) t5 in
    let t7 = mmio_write (uart0_base + 0x28) (frac_div 48000000 115200) t6 in
    let t8 = mmio_write (uart0_base + 0x2C) (2 ^ 4 + 2 ^ 5 + 2 ^ 6) t7 in
    let t9 =
      mmio_write (uart0_base + 0x38)
        (2 ^ 1 + 2 ^ 4 + 2 ^ 5 + 2 ^ 6 + 2 ^ 7 + 2 ^ 8 + 2 ^ 9 + 2 ^ 10) t8 in
    mmio_write (uart0_base + 0x30) (2 ^ 0 + 2 ^ 8 + 2 ^ 9) t9

pub record Uart : Type 0 where
  pub flags : List ℕ
  pub received : List ℕ
  pub written : List ℕ

-- The bits of the flag register: the transmitter is full, and the receiver is empty.
abbrev pub transmit_full : ℕ
transmit_full = 0x20

abbrev pub receive_empty : ℕ
receive_empty = 0x10

pub uart_putc : (c : ℕ) → Uart → Option Uart
uart_putc c u = do
  rest ← poll transmit_full u.flags
  some (record u { flags = rest; written = u.written ++ (c ∷ []) })

-- The byte that is read from the data register.
pub read_data : List ℕ → Uart → Option (ℕ × Uart)
read_data [] u = none
read_data (c ∷ rest) u = some (c % 256, record u { received = rest })

pub uart_getc : Uart → Option (ℕ × Uart)
unfolding read_data
uart_getc u = do rest ← poll receive_empty u.flags; read_data u.received (record u { flags = rest })

-- The loop over the characters from `str` on, to the terminator. `none` stands for a loop that has
-- not ended.
unfoldable pub puts_loop : (fuel : ℕ) → (text : Addr → ℕ) → (str : Addr) → Uart → Option Uart
puts_loop zero text str u = none
puts_loop (suc fuel) text str u =
    let rest = uart_putc (text str) u >>= puts_loop fuel text (suc str) in
    if text str == 0 then some u else rest

-- Every character takes a read of the flags.
pub uart_puts : (text : Addr → ℕ) → (str : Addr) → Uart → Option Uart
uart_puts text str u = puts_loop (suc (length u.flags)) text str u
