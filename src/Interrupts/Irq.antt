-- ===== src/Interrupts/Irq.antt =====
-- The interrupt controller and the table of handlers in src/interrupts.c. The registers are fields,
-- and `|=` reads and writes one; what the device does on a write is not modelled. The two tables
-- are maps over every number: an entry from NUM_IRQS on lies outside the arrays.
pub mod Pending
pub mod Dispatch
mod Examples
use rpiosv.Base.{
  ℕ, zero, suc, ◌-◌, ◌^◌, ◌%◌, Bool, true, false, not, ◌&&◌, ◌||◌, bit_and, bit_or, ltb, leb, ◌==◌,
  if◌then◌else◌, Addr, null, update,
}
use rpiosv.Interrupts.Level.{Level, enabled, disabled, enable_interrupts, disable_interrupts}

-- The registers of `interrupt_registers_t` that the code uses, the tables, and the interrupt level.
pub record Irq : Type 0 where
  pub level : Level
  pub handlers : ℕ → Addr
  pub clearers : ℕ → Addr
  pub irq_basic_pending : ℕ
  pub irq_gpu_pending1 : ℕ
  pub irq_gpu_pending2 : ℕ
  pub irq_gpu_enable1 : ℕ
  pub irq_gpu_enable2 : ℕ
  pub irq_basic_enable : ℕ
  pub irq_gpu_disable1 : ℕ
  pub irq_gpu_disable2 : ℕ
  pub irq_basic_disable : ℕ

-- NUM_IRQS
abbrev pub num_irqs : ℕ
num_irqs = 72

pub irq_is_basic : ℕ → Bool
irq_is_basic x = leb 64 x

pub irq_is_gpu2 : ℕ → Bool
irq_is_gpu2 x = leb 32 x && ltb x 64

pub irq_is_gpu1 : ℕ → Bool
irq_is_gpu1 x = ltb x 32

-- `1 << n` as a `uint32_t`.
abbrev pub bit : ℕ → ℕ
bit n = 2 ^ n % 2 ^ 32

pub irq_is_pending : Irq → ℕ → Bool
unfolding irq_is_basic irq_is_gpu2 irq_is_gpu1
irq_is_pending regs num =
    (irq_is_basic num && not (bit_and (bit (num - 64)) regs.irq_basic_pending == 0))
    || (irq_is_gpu2 num && not (bit_and (bit (num - 32)) regs.irq_gpu_pending2 == 0))
    || (irq_is_gpu1 num && not (bit_and (bit num) regs.irq_gpu_pending1 == 0))

-- `mzero` clears both tables.
unfoldable pub interrupts_init : Irq → Irq
interrupts_init s = record s {
  handlers = λ n. if ltb n num_irqs then null else s.handlers n;
  clearers = λ n. if ltb n num_irqs then null else s.clearers n;
  irq_basic_disable = 0xffffffff;
  irq_gpu_disable1 = 0xffffffff;
  irq_gpu_disable2 = 0xffffffff;
}

abbrev set_handlers : ℕ → (handler clearer : Addr) → Irq → Irq
set_handlers n handler clearer s = record s {
  handlers = update s.handlers n handler;
  clearers = update s.clearers n clearer;
}

pub register_irq_handler : (irq_num : ℕ) (handler clearer : Addr) → Irq → Irq
unfolding irq_is_basic irq_is_gpu2 irq_is_gpu1
register_irq_handler irq_num handler clearer s =
    if irq_is_basic irq_num
    then record (set_handlers irq_num handler clearer s) {
      irq_basic_enable = bit_or s.irq_basic_enable (bit (irq_num - 64));
    }
    else if irq_is_gpu2 irq_num
    then record (set_handlers irq_num handler clearer s) {
      irq_gpu_enable2 = bit_or s.irq_gpu_enable2 (bit (irq_num - 32));
    }
    else if irq_is_gpu1 irq_num
    then record (set_handlers irq_num handler clearer s) {
      irq_gpu_enable1 = bit_or s.irq_gpu_enable1 (bit irq_num);
    }
    else s

pub unregister_irq_handler : (irq_num : ℕ) → Irq → Irq
unfolding irq_is_basic irq_is_gpu2 irq_is_gpu1
unregister_irq_handler irq_num s =
    if irq_is_basic irq_num
    then record (set_handlers irq_num null null s) {
      irq_basic_disable = bit_or s.irq_basic_disable (bit (irq_num - 64));
    }
    else if irq_is_gpu2 irq_num
    then record (set_handlers irq_num null null s) {
      irq_gpu_disable2 = bit_or s.irq_gpu_disable2 (bit (irq_num - 32));
    }
    else if irq_is_gpu1 irq_num
    then record (set_handlers irq_num null null s) {
      irq_gpu_disable1 = bit_or s.irq_gpu_disable1 (bit irq_num);
    }
    else s

-- The code at an address changes the controller and a world of its own.
module _ {ℓ} {W : Type ℓ} (run : Addr → Irq × W → Irq × W) where
  -- One interrupt is served: its clearer runs, then its handler with interrupts enabled.
  pub serve : ℕ → Irq × W → Irq × W
  serve j w =
      let w1 = run (w.0.clearers j) w in
      let w2 : Irq × W = (record w1.0 { level = enable_interrupts w1.0.level }, w1.1) in
      let w3 = run (w2.0.handlers j) w2 in
      (record w3.0 { level = disable_interrupts w3.0.level }, w3.1)

  -- The loop from `j` on.
  pub irq_loop : (rounds j : ℕ) → Irq × W → Irq × W
  unfolding irq_is_pending serve
  irq_loop zero j w = w
  irq_loop (suc rounds) j w =
      let rest = irq_loop rounds (suc j) w in
      if irq_is_pending w.0 j && not (w.0.handlers j == null) then serve j w else rest

  pub c_irq_handler : Irq × W → Irq × W
  c_irq_handler w = irq_loop num_irqs 0 w
