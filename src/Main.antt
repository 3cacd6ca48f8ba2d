-- ===== src/Main.antt =====
-- src/kernel.c: the questions to the video core, the order in which the systems are set up, and
-- the entry of the kernel.
pub mod Boot
pub mod Tasks
pub mod Turn
mod Examples
use rpiosv.Base.{
  ℕ, zero, suc, ◌+◌, ◌-◌, ◌*◌, ◌/◌, ◌^◌, Option, none, some, List, [], ◌∷◌, ◌>>=◌, Addr, null,
  update,
}
use rpiosv.Base.Int.{ℤ, pos, negsuc}
use rpiosv.Mmio.{Trace}
use rpiosv.Memory.{Machine, init_smemory}
use rpiosv.Mailbox.{PropertyTag, MessageTag, Words, Port, System, send_messages}
use rpiosv.Uart.{uart_init}
use rpiosv.Stdout.{Output}
use rpiosv.Framebuffer.{FramebufferInfo, Video, codes, report, tag_at}
use rpiosv.Gpu.{Bytes, gpu_init}
use rpiosv.Gpio.{Leds, gpio_led_init}
use rpiosv.Interrupts.Irq.{Irq, interrupts_init}
use rpiosv.ArmTimer.{arm_timer_init}
use rpiosv.Kernel.{Kernel}
use rpiosv.Process.{Code, process_system_initialize}

-- The array of two tags, and what the questions change.
pub record Asking : Type 0 where
  pub system : System
  pub out : Output
  pub tags : List MessageTag

-- An `int` as a `uint32_t`.
abbrev pub as_word : ℤ → ℕ
as_word (pos n) = n
as_word (negsuc n) = 2 ^ 32 - suc n

-- `tags[0].proptag = tag; tags[1].proptag = NULL_TAG;`
unfoldable pub set_tag : PropertyTag → List MessageTag → List MessageTag
set_tag tag tags =
    record (tag_at tags 0) { proptag = tag }
    ∷ record (tag_at tags 1) { proptag = PropertyTag.null_tag }
    ∷ []

-- `tags[0].value_buffer...` is set to a word.
unfoldable pub set_value : ℕ → Asking → Asking
set_value value a = record a {
  tags = record (tag_at a.tags 0) { first = value } ∷ tag_at a.tags 1 ∷ [];
}

module _ (device : ℕ → Words → Words) where
  -- A question, and the result that is printed.
  pub ask : PropertyTag → Asking → Option Asking
  unfolding set_tag report
  ask tag a = do
    (res, tags, system) ← send_messages device (set_tag tag a.tags) a.system
    out ← report (codes "tags resp: ") (as_word res) a.out
    some (record { system = system; out = out; tags = tags })

  -- A line for the first word of the answer, and for the second.
  pub tell_first : (label : List ℕ) → Asking → Option Asking
  unfolding report
  tell_first label a = do
    out ← report label (tag_at a.tags 0).first a.out
    some (record a { out = out })

  pub tell_second : (label : List ℕ) → Asking → Option Asking
  unfolding report
  tell_second label a = do
    out ← report label (tag_at a.tags 0).second a.out
    some (record a { out = out })

  pub get_system_config : Asking → Option Asking
  unfolding ask tell_first tell_second set_value
  get_system_config a = do
    a1 ← ask PropertyTag.get_board_rev (set_value 0x12345678 a)
    a2 ← tell_first (codes "board revision: ") a1
    a3 ← ask PropertyTag.get_arm_memory a2
    a4 ← tell_first (codes "mem start: ") a3
    a5 ← tell_second (codes "mem size: ") a4
    a6 ← ask PropertyTag.get_clock_rate (set_value 2 a5)
    a7 ← tell_second (codes "uart clock rate: ") a6
    a8 ← ask PropertyTag.fb_get_physical_dimensions a7
    a9 ← tell_first (codes "width: ") a8
    tell_second (codes "height: ") a9

-- Everything that the kernel sets up. `leds.trace` is what was written to the registers.
pub record Board : Type 0 where
  pub kernel : Kernel
  pub words : Words
  pub port : Port
  pub out : Output
  pub info : FramebufferInfo
  pub bytes : Bytes
  pub leds : Leds
  pub irq : Irq

unfoldable pub set_trace : Trace → Board → Board
set_trace t b = record b { leds = record b.leds { trace = t } }

-- The parts of the board that `gpu_init` works on, and the board with them.
unfoldable pub video_of : Board → Video
video_of b = record {
  system = record { machine = b.kernel.machine; words = b.words; port = b.port };
  out = b.out;
  info = b.info;
}

unfoldable pub with_video : Board → Video × Bytes → Board
with_video b (v, m) = record b {
  kernel = record b.kernel { machine = v.system.machine };
  words = v.system.words;
  port = v.system.port;
  out = v.out;
  info = v.info;
  bytes = m;
}

-- The addresses that the linker gives.
pub record Layout : Type 0 where
  pub bss_start : Addr
  pub bss_end : Addr
  pub end : Addr
  pub handler : Addr
  pub clearer : Addr
  pub main_proc : Addr
  pub code : Code

module _ (device : ℕ → Words → Words) (layout : Layout) (junk : ℕ → ℕ) where
  -- The first part, up to `gpu_init`. `sys_timer_init` sets a pointer to registers.
  pub before_gpu : Board → Board
  unfolding uart_init gpio_led_init set_trace
  before_gpu b =
      let memory = init_smemory layout.end 0x100000 b.kernel.machine.memory in
      let heap : Board = record b {
        kernel = record b.kernel { machine = record b.kernel.machine { memory = memory } };
      } in
      let serial = set_trace (uart_init heap.leds.trace) heap in
      record serial { leds = gpio_led_init serial.leds }

  -- The part after it.
  pub after_gpu : Board → Board
  unfolding set_trace
  after_gpu b =
      let (irq, t) =
        arm_timer_init layout.handler layout.clearer (interrupts_init b.irq, b.leds.trace) in
      set_trace t (record b { irq = irq })

  pub init_systems : (fuel : ℕ) → Board → Option Board
  unfolding before_gpu after_gpu video_of with_video
  init_systems fuel b = do
    done ← gpu_init device fuel junk (video_of (before_gpu b)) (before_gpu b).bytes
    some (after_gpu (with_video (before_gpu b) done))

  -- The loop that clears the bss.
  pub bss_loop : (rounds : ℕ) → (p : Addr) → (Addr → ℕ) → Addr → ℕ
  bss_loop zero p m = m
  bss_loop (suc rounds) p m = bss_loop rounds (suc p) (update m p 0)

  -- Up to the first switch of contexts. The bss is in `bytes`.
  pub kernel_main : (fuel : ℕ) → Board → Option Board
  unfolding bss_loop init_systems
  kernel_main fuel b = do
    b' ←
        init_systems fuel (record b {
          bytes = bss_loop (layout.bss_end - layout.bss_start) layout.bss_start b.bytes;
        })
    k ← process_system_initialize layout.code layout.main_proc null b'.kernel
    some (record b' { kernel = k })
