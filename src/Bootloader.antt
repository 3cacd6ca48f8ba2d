-- ===== src/Bootloader.antt =====
-- The packet machine of serial/bootloader/src/bootloader.c, a byte of input at a time. The serial
-- line is a sequence of bytes in each direction. Zeroing of the bss, `uart_init` and the greeting
-- come before it; `dump` is never called. A byte is below 256, and an address is a `uint32_t`.
pub mod Sender
pub mod Packet
pub mod RoundTrip
mod Examples
use rpiosv.Base.{
  ℕ, zero, suc, ◌+◌, ◌*◌, ◌%◌, ◌^◌, Bool, true, false, Option, none, some, List, [], ◌∷◌, ◌++◌,
  bit_or, bit_xor, ◌==◌, if◌then◌else◌, Addr, update,
}

pub record Loader : Type 0 where
  pub packet : ℕ → ℕ
  pub pidx : ℕ
  pub memory : Addr → ℕ
  -- What was sent, last byte last.
  pub sent : List ℕ
  -- The address that `BRANCHTO` was called with: the loader does not run after that.
  pub branched : Option Addr

abbrev pub uart_putc : ℕ → Loader → Loader
uart_putc c l = record l { sent = l.sent ++ c ∷ [] }

-- `cs` after the loop has run over the `n` first bytes of the packet.
pub check_sum : ℕ → (ℕ → ℕ) → ℕ
check_sum zero packet = 0
check_sum (suc n) packet = bit_xor (check_sum n packet) (packet n)

-- `p1` after the loop that runs from `i = n` down to 1.
pub address_loop : ℕ → (ℕ → ℕ) → (p1 : ℕ) → Addr
address_loop zero packet p1 = p1
address_loop (suc n) packet p1 = address_loop n packet (bit_or (p1 * 256 % 2 ^ 32) (packet (suc n)))

-- The loop that stores: the byte `i`, and those after it.
pub store_loop : (rounds i : ℕ) → (p1 : Addr) → (ℕ → ℕ) → (Addr → ℕ) → Addr → ℕ
store_loop zero i p1 packet m = m
store_loop (suc rounds) i p1 packet m =
    store_loop rounds (suc i) p1 packet (update m ((p1 + i) % 2 ^ 32) (packet (5 + i)))

-- A packet with a right check sum, by its type.
pub perform : (p1 : Addr) → Loader → Loader
unfolding store_loop
perform p1 l =
    if l.packet 0 == 1
    then record l { memory = store_loop 4 0 p1 l.packet l.memory }
    else if l.packet 0 == 2
    then (if l.packet 5 == 0xff
        then record l { branched = some p1 }
        else uart_putc 0x01 (uart_putc 0x00 l))
    else if l.packet 0 == 4
    then (if l.packet 5 == 0xff
        then uart_putc (l.memory p1) (uart_putc 0x88 l)
        else uart_putc 0x02 (uart_putc 0x00 l))
    else uart_putc 0x03 (uart_putc 0x00 l)

-- The last `uart_putc`, which is not reached once the loader has branched.
pub acknowledge : Loader → Loader
acknowledge l = elim l.branched [ none ↦ uart_putc 0xff l | some p ↦ l ]

-- The last byte of a packet has come.
pub finish_packet : Loader → Loader
unfolding check_sum address_loop perform acknowledge
finish_packet l = acknowledge (
    if check_sum 9 l.packet == l.packet 9
    then perform (address_loop 4 l.packet 0) l
    else uart_putc 0x04 (uart_putc 0x00 l))

-- A round of the loop, with the byte that `uart_getc` returns.
pub receive : ℕ → Loader → Loader
unfolding finish_packet
receive c l =
    let l1 = record l { packet = update l.packet l.pidx c; pidx = suc l.pidx } in
    elim l.branched [
      | some p ↦ l
      | none ↦ if l1.pidx == 10 then finish_packet (record l1 { pidx = 0 }) else l1
    ]

-- The loop over a sequence of bytes.
unfoldable pub bootloader_main : List ℕ → Loader → Loader
unfolding receive
bootloader_main [] l = l
bootloader_main (c ∷ cs) l = bootloader_main cs (receive c l)
