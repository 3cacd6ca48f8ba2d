-- ===== src/Framebuffer/Examples.antt =====
-- The theorems on `framebuffer_init` and `gpu_init` with a video core that gives the size that was
-- asked for.
use rpiosv.Base.{◌+◌, ◌-◌, ◌*◌, ◌≡◌, if◌then◌else◌, refl, false, some, List, [], ◌∷◌, Addr, arith}
use rpiosv.Interrupts.Level.{set_interrupt_level, interrupts_enabled}
use rpiosv.Memory.{salloc, walk, take_block, init_smemory, round_size}
use rpiosv.Memory.Blocks.{Block}
use rpiosv.Memory.Take.{IsHeap}
use rpiosv.Memory.Sfree.{init_smemory-IsHeap}
use rpiosv.Mmio.{ready}
use rpiosv.Mailbox.{is_null_tag, get_value_buffer_len}
use rpiosv.Mailbox.Layout.{encode, buffer_bytes}
use rpiosv.Mailbox.Response.{overlay_all}
use rpiosv.Stdlib.{is_zero_int, magnitude}
use rpiosv.Stdlib.Shown.{shown, numeral}
use rpiosv.Uart.Text.{Took}
use rpiosv.Framebuffer.{
  Video, framebuffer_tags, framebuffer_init, as_int, set_size, set_buffer, times_bytes_per_pixel,
}
use rpiosv.Framebuffer.Info.{Accepted, lines_of, merged, framebuffer_init-Accepted}
use rpiosv.Stdlib.Copy.{within}
use rpiosv.Gpu.{Bytes, gpu_init}
use rpiosv.Gpu.Fits.{IsSized}
use rpiosv.Gpu.Cursor.{IsCursor}
use rpiosv.Gpu.Clear.{blue_byte}
use rpiosv.Gpu.Start.{success, gpu_init-Attempts}
use rpiosv.Samples.{heap, after}
use rpiosv.Samples.Screens.{
  junk, blank, start, answered, screen, virtual, depth, buffer, last, device, device-code,
  device-Replied, answers, few_lines, first_start, screen_of,
}

abbrev blocks : List Block
blocks = record { addr = 0x9000; capacity = 0xfff0; used = false } ∷ []

heap_blocks : IsHeap 0x9000 (0x9000 + 0x10000) heap.memory blocks
heap_blocks =
    init_smemory-IsHeap 0x9000 0x10000 _ (omega arith) refl refl (omega arith) (omega arith)

taken : salloc (buffer_bytes (framebuffer_tags junk)) heap ≡ some (0x9010, after 96 heap)
unfolding salloc walk take_block init_smemory round_size set_interrupt_level interrupts_enabled
    buffer_bytes encode framebuffer_tags is_null_tag get_value_buffer_len
taken = refl

framebuffer_init-Accepted_example :
    (v' : Video) × (framebuffer_init device junk (start heap) ≡ some (0, v'))
    × Accepted screen buffer v'.info
    × Took
        (lines_of (merged junk screen virtual depth buffer last) blank)
        (start heap).out.uart
        v'.out.uart
unfolding ready framebuffer_tags set_size set_buffer times_bytes_per_pixel shown numeral is_zero_int
    magnitude as_int overlay_all is_null_tag get_value_buffer_len
framebuffer_init-Accepted_example =
    framebuffer_init-Accepted device junk (start heap) 0x9000 (0x9000 + 0x10000) blocks heap_blocks
      0x9010 (after 96 heap) taken (omega arith) answered screen virtual depth buffer last
      (refl, (refl, (refl, (refl, (refl, tt))))) (λ m h. (device-code m, device-Replied m))
      (omega arith) (omega arith) (omega arith) few_lines

abbrev started :
    (v' : Video) × (framebuffer_init device junk (start heap) ≡ some (0, v'))
    × Accepted screen buffer v'.info
    × Took (lines_of answers blank) (start heap).out.uart v'.out.uart
started = first_start heap (after 96 heap) 0x9000 (0x9000 + 0x10000) blocks heap_blocks taken

gpu_init-Attempts_example :
    (m' : Bytes) × (gpu_init device 3 junk (start heap) (λ a. a) ≡ some (started.0, m'))
    × ((p : Addr)
        → m' p ≡ (
            if within started.0.info.buf (started.0.info.pitch * started.0.info.height) p
            then blue_byte (p - started.0.info.buf)
            else p))
    × IsSized started.0.info
    × IsCursor started.0.info
    × (started.0.info.chars_x ≡ 0)
    × (started.0.info.chars_y ≡ 0)
gpu_init-Attempts_example =
    gpu_init-Attempts device junk 3 (λ a. a) (success (start heap) started.0 started.1)
      (omega arith) (screen_of started.2) (omega (arith, started.2.width))
