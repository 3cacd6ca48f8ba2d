-- ===== src/Main/Boot.antt =====
-- The board once `init_systems` has set everything up.
use rpiosv.Base.{
  ℕ, ◌+◌, ◌-◌, ◌*◌, ◌%◌, ◌^◌, ◌<◌, ◌≡◌, ◌≢◌, refl, false, some, [], ◌∷◌, ◌==◌, if◌then◌else◌, arith,
  Addr, null,
}
use rpiosv.Memory.Take.{IsHeap}
use rpiosv.Memory.Sfree.{init_smemory-IsHeap}
use rpiosv.Mailbox.{Words}
use rpiosv.Stdlib.Copy.{within}
use rpiosv.Framebuffer.{Video}
use rpiosv.Gpu.Scroll.{IsScreen}
use rpiosv.Gpu.Fits.{IsSized}
use rpiosv.Gpu.Cursor.{IsCursor}
use rpiosv.Gpu.Clear.{blue_byte}
use rpiosv.Gpu.Start.{Attempts, gpu_init-Attempts}
use rpiosv.Interrupts.Irq.{irq_is_pending, num_irqs, interrupts_init}
use rpiosv.Interrupts.Irq.Pending.{ready}
use rpiosv.ArmTimer.{arm_timer}
use rpiosv.ArmTimer.Ready.{arm_timer_init-ready}
use rpiosv.Main.{
  Board, Layout, before_gpu, after_gpu, init_systems, video_of, with_video, set_trace,
}

module _ (device : ℕ → Words → Words) (layout : Layout) (junk : ℕ → ℕ) where
  -- The heap that the request for a frame buffer finds.
  before_gpu-IsHeap :
      (b : Board)
      → 0 < layout.end
      → layout.end % 16 ≡ 0
      → layout.end + 0x100000 < 2 ^ 32
      → IsHeap layout.end
          (layout.end + 0x100000)
          (video_of (before_gpu device layout junk b)).system.machine.memory
          (record { addr = layout.end; capacity = 0x100000 - 16; used = false } ∷ [])
  unfolding before_gpu video_of set_trace
  before_gpu-IsHeap b some_end al small =
      init_smemory-IsHeap layout.end 0x100000 b.kernel.machine.memory some_end al refl (omega arith)
        small

  -- What `init_systems` leaves.
  pub record Booted (b b' : Board) (v : Video) : Type 0 where
    pub info : b'.info ≡ v.info
    pub machine : b'.kernel.machine ≡ v.system.machine
    pub blue :
        (p : Addr)
        → b'.bytes p ≡ (
            if within v.info.buf (v.info.pitch * v.info.height) p
            then blue_byte (p - v.info.buf)
            else b.bytes p)
    pub only_timer :
        (i : ℕ)
        → i < num_irqs
        → ready b'.irq i
          ≡ (if i == arm_timer then irq_is_pending (interrupts_init b.irq) i else false)

  -- `init_systems` makes a heap of one free block from the end of the kernel on, in which the frame
  -- buffer is asked for. After failed requests below the fuel and one that succeeds, where the screen
  -- that it leaves has a row of characters, ends below 2 ^ 31, and is narrow enough for its pitch, it
  -- returns. The frame buffer is then as that request left it, and its screen is blue; only the
  -- timer's interrupt can be served; the sizes of the screen agree, and the cursor is in its first
  -- place.
  pub init_systems-Booted :
      (fuel : ℕ) (b : Board) {n : ℕ} {v : Video}
      → 0 < layout.end
      → layout.end % 16 ≡ 0
      → layout.end + 0x100000 < 2 ^ 32
      → layout.handler ≢ null
      → Attempts device junk n (video_of (before_gpu device layout junk b)) v
      → n < fuel
      → IsScreen v.info
      → v.info.width * 24 < 2 ^ 32
      → IsHeap layout.end
          (layout.end + 0x100000)
          (video_of (before_gpu device layout junk b)).system.machine.memory
          (record { addr = layout.end; capacity = 0x100000 - 16; used = false } ∷ [])
        × (b' : Board) × (init_systems device layout junk fuel b ≡ some b')
        × Booted b b' v
        × IsSized b'.info
        × IsCursor b'.info
        × (b'.info.chars_x ≡ 0)
        × (b'.info.chars_y ≡ 0)
  unfolding init_systems
  init_systems-Booted fuel b {v = v} some_end al small live a h is narrow =
      let b0 = before_gpu device layout junk b in
      let (m', done, blue, sized, cursor, x, y) =
        gpu_init-Attempts device junk fuel b0.bytes a h is narrow in
      let b' = after_gpu device layout junk (with_video b0 (v, m')) in
      (
        before_gpu-IsHeap b some_end al small,
        b',
        rw done,
        unfold after_gpu with_video before_gpu set_trace in
            record {
              info = refl;
              machine = refl;
              blue = blue;
              only_timer =
                  λ i l. arm_timer_init-ready layout.handler layout.clearer b.irq _ i live l;
            },
        unfold after_gpu with_video set_trace in sized,
        unfold after_gpu with_video set_trace in cursor,
        unfold after_gpu with_video set_trace in x,
        unfold after_gpu with_video set_trace in y,
      )
