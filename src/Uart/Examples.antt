-- ===== src/Uart/Examples.antt =====
-- Runs of src/uart.c: the divisors of the rate and a read.
use rpiosv.Base.{ℕ, ◌-◌, ◌≡◌, refl, some, [], ◌∷◌, get_or, Addr}
use rpiosv.Mmio.{poll}
use rpiosv.Uart.{Uart, int_div, frac_div, uart_getc, read_data}

-- The text "hi" at 100.
abbrev hi : Addr → ℕ
hi a = get_or (104 ∷ 105 ∷ []) (a - 100) 0

-- The transmitter is busy once before each character.
abbrev idle : Uart
idle = record { flags = 0x20 ∷ 0 ∷ 0x20 ∷ 0x10 ∷ []; received = 300 ∷ []; written = [] }

-- The divisors that the code sets.
divisors : int_div 48000000 115200 ≡ 26
unfolding int_div
divisors = refl

fraction : frac_div 48000000 115200 ≡ 3
unfolding frac_div
fraction = refl

-- A read is cut to a byte.
received_run :
    uart_getc idle ≡ some (44, record idle { flags = 0 ∷ 0x20 ∷ 0x10 ∷ []; received = [] })
unfolding uart_getc read_data poll
received_run = refl
