-- ===== src/Clock.antt =====
-- Sleeping and the timer tick of src/process.c.
pub mod Due
pub mod Handler
pub mod Tick
pub mod Sleep
pub mod Window
mod Examples
use rpiosv.Base.{
  ℕ, zero, suc, ◌+◌, ◌-◌, ◌/◌, ◌%◌, ◌^◌, Bool, true, false, Option, none, some, leb, ◌==◌,
  if◌then◌else◌, Addr, null, update,
}
use rpiosv.Base.Int.{ℤ, pos, negsuc, is_zero}
use rpiosv.Interrupts.Level.{Level, disabled, enabled, interrupts_enabled}
use rpiosv.Memory.{u32}
use rpiosv.Queue.{Reply, queue_append, queue_find, queue_delete_fast}
use rpiosv.Kernel.{Kernel, set_store}
use rpiosv.Scheduler.{
  interrupt_level, get_current_process, process_start, process_stop, process_yield, written,
}

-- TIMER_PERIOD_US
abbrev pub timer_period_us : ℕ
timer_period_us = 50000

-- `sleepms / (TIMER_PERIOD_US / 1000)`, which rounds towards 0, as a `uint32_t`.
unfoldable pub sleep_ticks : ℤ → ℕ
sleep_ticks (pos n) = u32 (n / (timer_period_us / 1000))
sleep_ticks (negsuc n) = u32 (2 ^ 32 - suc n / (timer_period_us / 1000))

unfoldable pub should_awaken : (proc : Addr) (tick : ℕ) → Kernel → Bool
should_awaken proc tick k = leb (k.awaken_tick proc) (u32 tick)

-- `proc_sleep_ms` up to the call of `process_stop`. Interrupts are back at their level there.
unfoldable pub sleep_enqueue : ℤ → Kernel → Kernel
sleep_enqueue sleepms k =
    let prev_level = interrupts_enabled k.machine.irq in
    let k1 = interrupt_level disabled k in
    let curr_proc = get_current_process k1 in
    let tick = u32 (sleep_ticks sleepms + k1.ticks) in
    let k2 = record k1 { awaken_tick = update k1.awaken_tick curr_proc tick } in
    let k3 = set_store (queue_append k2.tick_queue curr_proc k2.store).1 k2 in
    interrupt_level prev_level k3

unfoldable pub proc_sleep_ms : ℤ → Kernel → Kernel
proc_sleep_ms sleepms k = process_stop (sleep_enqueue sleepms k)

-- The body of the loop of `clock_handler`.
pub awaken : Addr → Kernel → Kernel
awaken proc k = process_start proc (set_store (queue_delete_fast k.tick_queue proc k.store).1 k)

-- The loop of `clock_handler`. Each round walks along the tick queue, with the same fuel.
pub awaken_loop : ℕ → Kernel → Option Kernel
awaken_loop zero k = none
awaken_loop (suc fuel) k =
    elim (queue_find (suc fuel) k.tick_queue (λ p. should_awaken p k.ticks k) true k.store) [
      | none ↦ none
      | some reply ↦
          let rest = awaken_loop fuel (awaken (written null reply.item) k) in
          if is_zero reply.status then rest else some k
    ]

-- `none` stands for a walk that did not come back to the sentinel.
unfoldable pub clock_handler : ℕ → Kernel → Option Kernel
clock_handler fuel k =
    let prev_level = interrupts_enabled k.machine.irq in
    let k1 = interrupt_level disabled k in
    let k2 = record k1 { ticks = u32 (k1.ticks + 1) } in
    elim (awaken_loop fuel k2) [
      | none ↦ none
      | some k3 ↦ some (process_yield (interrupt_level prev_level k3))
    ]
