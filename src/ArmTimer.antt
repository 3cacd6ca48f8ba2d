-- ===== src/ArmTimer.antt =====
-- The timer of src/arm_timer.c. `set_timer_handler` is with the processes, whose handler it sets.
pub mod Ready
use rpiosv.Base.{ℕ, ◌+◌, ◌/◌, ◌^◌, ◌==◌, if◌then◌else◌, Addr, null}
use rpiosv.Mmio.{Trace, mmio_write}
use rpiosv.Interrupts.Irq.{Irq, register_irq_handler}

abbrev pub arm_timer : ℕ
arm_timer = 64

abbrev pub interrupts_base : ℕ
interrupts_base = 0x3F00B000

abbrev pub timer_period_us : ℕ
timer_period_us = 50000

-- `handler`: the code at `h` runs, if there is one.
unfoldable pub handler {ℓ} : {S : Type ℓ} → (call : Addr → S → S) → (h : Addr) → S → S
handler call h s = if h == null then s else call h s

unfoldable pub clearer : Trace → Trace
unfolding mmio_write
clearer t = mmio_write (interrupts_base + 0x40c) 0 t

-- The addresses of `handler` and `clearer` are those that are registered.
pub arm_timer_init : (handler_code clearer_code : Addr) → Irq × Trace → Irq × Trace
unfolding mmio_write
arm_timer_init handler_code clearer_code (irq, t) = (
  register_irq_handler arm_timer handler_code clearer_code irq,
  mmio_write (interrupts_base + 0x408) 0xaa
      (mmio_write (interrupts_base + 0x400) (timer_period_us / 2 ^ 8) t),
)
