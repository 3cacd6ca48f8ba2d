-- ===== src/Interrupts/Irq/Examples.antt =====
-- The theorems on the controller at a state in which the interrupts 9 and 64 are pending.
use rpiosv.Base.{bit_at, ℕ, ◌+◌, ◌<◌, ◌≡◌, refl, false, ◌==◌, if◌then◌else◌, Addr, null, arith}
use rpiosv.Interrupts.Level.{disabled}
use rpiosv.Interrupts.Irq.{Irq, c_irq_handler}
use rpiosv.Interrupts.Irq.Pending.{raised}
use rpiosv.Interrupts.Irq.Dispatch.{acknowledged, c_irq_handler-serves}

abbrev two_pending : Irq
two_pending = record {
  level = disabled;
  handlers = λ n. if n == 64 then 0x8400 else null;
  clearers = λ n. if n == 64 then 0x8500 else null;
  irq_basic_pending = 1;
  irq_gpu_pending1 = 512;
  irq_gpu_pending2 = 0;
  irq_gpu_enable1 = 0;
  irq_gpu_enable2 = 0;
  irq_basic_enable = 1;
  irq_gpu_disable1 = 0;
  irq_gpu_disable2 = 0;
  irq_basic_disable = 0;
}

-- Code that only counts that it has run.
abbrev count : Addr → Irq × ℕ → Irq × ℕ
count p w = (w.0, w.1 + 1)

only_64 : (i : ℕ) → i < 64 → raised two_pending i ≡ false
only_64 i h =
    let other : two_pending.handlers i ≡ null = ground (arith, h) in rw other (ground arith)

c_irq_handler-serves_example :
    c_irq_handler count (two_pending, 0) ≡ acknowledged count 64 (two_pending, 0)
unfolding bit_at
c_irq_handler-serves_example =
    c_irq_handler-serves count 64 (two_pending, 0) (omega arith) refl only_64
