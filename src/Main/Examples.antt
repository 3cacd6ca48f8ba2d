-- ===== src/Main/Examples.antt =====
-- The theorem on `init_systems` with a video core that gives the screen that is asked for.
use rpiosv.Base.{◌+◌, ◌-◌, ◌≡◌, refl, false, some, List, [], ◌∷◌, arith}
use rpiosv.Interrupts.Level.{enabled, set_interrupt_level, interrupts_enabled}
use rpiosv.Memory.{Machine, salloc, walk, take_block, init_smemory, round_size}
use rpiosv.Memory.Blocks.{Block}
use rpiosv.Memory.Take.{IsHeap}
use rpiosv.Memory.Sfree.{init_smemory-IsHeap}
use rpiosv.Mailbox.{is_null_tag, get_value_buffer_len}
use rpiosv.Mailbox.Layout.{encode, buffer_bytes}
use rpiosv.Uart.Text.{Took}
use rpiosv.Framebuffer.{Video, framebuffer_tags, framebuffer_init}
use rpiosv.Framebuffer.Info.{Accepted, lines_of}
use rpiosv.Gpu.Start.{Attempts, success}
use rpiosv.Gpu.Fits.{IsSized}
use rpiosv.Gpu.Cursor.{IsCursor}
use rpiosv.Main.{Board, Layout, init_systems, before_gpu, video_of, set_trace}
use rpiosv.Main.Boot.{Booted, init_systems-Booted}
use rpiosv.Samples.{kernel5, contents5, kernel5-Running, live, heap, after, kernel, store0}
use rpiosv.Samples.Screens.{
  junk, blank, start, screen, buffer, device, answers, first_start, screen_of,
}
use rpiosv.Base.Int.{pos}
use rpiosv.Main.Tasks.{proc_1}
use rpiosv.Main.Turn.{Turned, proc_1-Turned}
use rpiosv.Gpio.{gpio_invert_led}
use rpiosv.Framebuffer.{codes}
use rpiosv.Mmio.{ready}
use rpiosv.Stdlib.{is_zero_int, magnitude}
use rpiosv.Stdlib.Shown.{shown, numeral}

abbrev booted : Machine
booted = record heap { memory = init_smemory 0x9000 0x100000 heap.memory }

abbrev blocks : List Block
blocks = record { addr = 0x9000; capacity = 0xffff0; used = false } ∷ []

booted_blocks : IsHeap 0x9000 (0x9000 + 0x100000) booted.memory blocks
booted_blocks =
    init_smemory-IsHeap 0x9000 0x100000 heap.memory (omega arith) refl refl (omega arith)
      (omega arith)

taken : salloc (buffer_bytes (framebuffer_tags junk)) booted ≡ some (0x9010, after 96 booted)
unfolding salloc walk take_block init_smemory round_size set_interrupt_level interrupts_enabled
    buffer_bytes encode framebuffer_tags is_null_tag get_value_buffer_len
taken = refl

abbrev started :
    (v' : Video) × (framebuffer_init device junk (start booted) ≡ some (0, v'))
    × Accepted screen buffer v'.info
    × Took (lines_of answers blank) (start booted).out.uart v'.out.uart
started = first_start booted (after 96 booted) 0x9000 (0x9000 + 0x100000) blocks booted_blocks taken

abbrev board : Board
board = record {
  kernel = kernel store0 heap (pos 0);
  words = (start heap).system.words;
  port = (start heap).system.port;
  out = (start heap).out;
  info = blank;
  bytes = λ a. a;
  leds = record { led_state = 1; led_state_2 = 1; trace = [] };
  irq = record {
    level = enabled;
    handlers = λ n. 0x7000;
    clearers = λ n. 0x7000;
    irq_basic_pending = 1;
    irq_gpu_pending1 = 1;
    irq_gpu_pending2 = 0;
    irq_gpu_enable1 = 0;
    irq_gpu_enable2 = 0;
    irq_basic_enable = 0;
    irq_gpu_disable1 = 0;
    irq_gpu_disable2 = 0;
    irq_basic_disable = 0;
  };
}

abbrev layout : Layout
layout = record {
  bss_start = 0x8800;
  bss_end = 0x9000;
  end = 0x9000;
  handler = 0x8400;
  clearer = 0x8500;
  main_proc = 0x8600;
  code = record { cleanup = 0x8200; reaper_process = 0x8210; clock_handler = 0x8220 };
}

attempt : Attempts device junk 0 (video_of (before_gpu device layout junk board)) started.0
unfolding video_of before_gpu set_trace
attempt = success (start booted) started.0 started.1

init_systems-Booted_example :
    IsHeap 0x9000
      (0x9000 + 0x100000)
      (video_of (before_gpu device layout junk board)).system.machine.memory
      (record { addr = 0x9000; capacity = 0x100000 - 16; used = false } ∷ [])
    × (b' : Board) × (init_systems device layout junk 3 board ≡ some b')
    × Booted device layout junk board b' started.0
    × IsSized b'.info
    × IsCursor b'.info
    × (b'.info.chars_x ≡ 0)
    × (b'.info.chars_y ≡ 0)
init_systems-Booted_example =
    init_systems-Booted device layout junk 3 board (omega arith) refl (omega arith) (omega arith)
      attempt (omega arith) (screen_of started.2) (omega (arith, started.2.width))

-- A board on which process 2000 runs, with room for the line.
abbrev turning : Board
turning = record board {
  kernel = kernel5;
  out = record {
    intbuf = λ k. 0;
    uart = record {
      flags = 0 ∷ 0 ∷ 0 ∷ 0 ∷ 0 ∷ 0 ∷ 0 ∷ 0 ∷ 0 ∷ 0 ∷ 0 ∷ 0 ∷ 0 ∷ 0 ∷ 0 ∷ 0 ∷ [];
      received = [];
      written = [];
    };
  };
}

proc_1-Turned_example :
    (b' : Board) × (proc_1 (pos 7) turning ≡ some (pos 8, b'))
    × (b'.leds ≡ gpio_invert_led turning.leds)
    × Turned live contents5 turning (pos 7) (codes "hello from 1 ") 15 b'
unfolding shown numeral is_zero_int magnitude ready
proc_1-Turned_example =
    proc_1-Turned turning kernel5-Running refl (ground arith) (ground arith) (pos 7) (ground arith)
      (omega arith)
