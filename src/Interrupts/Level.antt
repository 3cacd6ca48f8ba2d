-- ===== src/Interrupts/Level.antt =====
-- The inline functions of src/interrupts.h that read and set the interrupt level. The state is bit 7
-- of CPSR, as a Boolean: `true` stands for ENABLED (the bit is clear).
use rpiosv.Base.{◌≡◌, refl, Bool, true, false, not, if◌then◌else◌}

abbrev pub Level : Type 0
Level = Bool

abbrev pub disabled : Level
disabled = false

abbrev pub enabled : Level
enabled = true

unfoldable pub interrupts_enabled : Level → Bool
interrupts_enabled irq = irq

unfoldable pub enable_interrupts : Level → Level
unfolding interrupts_enabled
enable_interrupts irq = if not (interrupts_enabled irq) then enabled else irq

unfoldable pub disable_interrupts : Level → Level
unfolding interrupts_enabled
disable_interrupts irq = if interrupts_enabled irq then disabled else irq

-- The level after the call. Its result is the level before it, `interrupts_enabled irq`.
unfoldable pub set_interrupt_level : Level → Level → Level
unfolding enable_interrupts disable_interrupts
set_interrupt_level en irq = if en then enable_interrupts irq else disable_interrupts irq

-- The level becomes the argument, whatever it was.
pub set_interrupt_level_lem : (en irq : Level) → set_interrupt_level en irq ≡ en
unfolding set_interrupt_level
set_interrupt_level_lem true true = refl
set_interrupt_level_lem true false = refl
set_interrupt_level_lem false true = refl
set_interrupt_level_lem false false = refl

-- Setting the level back to what a call found restores it.
pub set_interrupt_level-restore :
    (en irq : Level)
    → set_interrupt_level (interrupts_enabled irq) (set_interrupt_level en irq) ≡ irq
unfolding interrupts_enabled
set_interrupt_level-restore en irq = set_interrupt_level_lem irq (set_interrupt_level en irq)
