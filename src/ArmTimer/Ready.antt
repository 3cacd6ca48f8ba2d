-- ===== src/ArmTimer/Ready.antt =====
-- The interrupts once the timer is set up.
use rpiosv.Base.{ℕ, ◌<◌, ◌≡◌, ◌≢◌, ◌∙◌, false, true, ltb, ◌==◌, if◌then◌else◌, Addr, null, arith}
use rpiosv.Mmio.{Trace}
use rpiosv.Interrupts.Irq.{Irq, irq_is_pending, num_irqs, interrupts_init}
use rpiosv.Interrupts.Irq.Pending.{ready}
use rpiosv.Interrupts.Irq.Dispatch.{register_irq_handler-ready}
use rpiosv.ArmTimer.{arm_timer, arm_timer_init}

cleared : (s : Irq) (i : ℕ) → i < num_irqs → ready (interrupts_init s) i ≡ false
unfolding interrupts_init
cleared s i h = let small : ltb i 72 ≡ true = ground arith in rw small (ground arith)

-- After `interrupts_init` and `arm_timer_init` no interrupt but that of the timer is served, and
-- that one is while it is pending.
pub arm_timer_init-ready :
    (handler_code clearer_code : Addr) (s : Irq) (t : Trace) (i : ℕ)
    → handler_code ≢ null
    → i < num_irqs
    → ready (arm_timer_init handler_code clearer_code (interrupts_init s, t)).0 i
      ≡ (if i == arm_timer then irq_is_pending (interrupts_init s) i else false)
unfolding arm_timer_init
arm_timer_init-ready handler_code clearer_code s t i real h =
    let r =
      (register_irq_handler-ready arm_timer handler_code clearer_code (interrupts_init s) real).0
        i in
    r ∙ rw (cleared s i h)
