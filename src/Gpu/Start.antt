-- ===== src/Gpu/Start.antt =====
-- The loop of `gpu_init` that asks until it gets a frame buffer.
use rpiosv.Base.{
  ℕ, zero, suc, ◌*◌, ◌<◌, ◌^◌, ◌≡◌, ◌≢◌, false, some, ◌==◌, ◌>>=◌, if◌then◌else◌, arith, Addr, ◌-◌,
}
use rpiosv.Mailbox.{Words}
use rpiosv.Stdout.{Output}
use rpiosv.Stdlib.Copy.{within}
use rpiosv.Framebuffer.{FramebufferInfo, Video, put_literal, codes, crlf, framebuffer_init}
use rpiosv.Framebuffer.Success.{Sized, framebuffer_init-Sized}
use rpiosv.Gpu.{Bytes, fill_screen, init_loop, gpu_init, num_rows}
use rpiosv.Gpu.Scroll.{IsScreen}
use rpiosv.Gpu.Fits.{IsSized}
use rpiosv.Gpu.Cursor.{IsCursor}
use rpiosv.Gpu.Clear.{blue_byte, fill_screen-blue_byte}

module _ (device : ℕ → Words → Words) (junk : ℕ → ℕ) where
  -- `framebuffer_init` fails a number of times, each time with a line that is printed, and then
  -- succeeds.
  pub data Attempts : ℕ → Video → Video → Type 0 where
    success : (v v' : Video) → framebuffer_init device junk v ≡ some (0, v') → Attempts 0 v v'
    failure :
        {n : ℕ} (v v1 : Video) (r : ℕ) (o : Output) {v' : Video}
        → framebuffer_init device junk v ≡ some (r, v1)
        → r ≢ 0
        → (put_literal (codes "Had to try again") v1.out >>= put_literal crlf) ≡ some o
        → Attempts n (record v1 { out = o }) v'
        → Attempts (suc n) v v'

  init_loop-Attempts :
      (fuel : ℕ) {n : ℕ} {v v' : Video}
      → Attempts n v v'
      → n < fuel
      → init_loop device fuel junk v ≡ some v'
  unfolding init_loop
  init_loop-Attempts zero a h = absurd (omega arith)
  init_loop-Attempts (suc fuel) (success v v' ok) h = rw ok
  init_loop-Attempts (suc fuel) (failure v v1 r o got bad told later) h =
      let again : (r == 0) ≡ false = ground arith in
      rw (got, again, told) (init_loop-Attempts fuel later (omega arith))

-- The last request was successful.
Attempts-Sized :
    {device : ℕ → Words → Words} {junk : ℕ → ℕ} {n : ℕ} {v v' : Video}
    → Attempts device junk n v v'
    → Sized v'.info
Attempts-Sized {device} {junk} (success v v' ok) = framebuffer_init-Sized device junk v v' ok
Attempts-Sized (failure v v1 r o got bad told later) = Attempts-Sized later

Sized-IsSized : {info : FramebufferInfo} → Sized info → info.width * 24 < 2 ^ 32 → IsSized info
Sized-IsSized a narrow = record { pitch_width = a.pitch narrow; columns = a.chars_width }

Sized-IsCursor :
    {info : FramebufferInfo} → Sized info → info.width * 24 < 2 ^ 32 → IsScreen info → IsCursor info
unfolding num_rows
Sized-IsCursor {info} a narrow is = record {
  x = omega (arith, a.chars_x);
  y = omega (arith, a.chars_y);
  some_row = omega (arith, is.some_row);
  x_word = omega (arith, narrow, a.chars_width);
  y_word = omega (arith, is.height_word);
}

-- After any number of failed requests below the fuel and one that succeeds, where the screen that
-- it leaves has a row of characters, ends below 2 ^ 31, and is narrow enough for its pitch,
-- `gpu_init` returns with that screen in blue and all other memory as it was. The sizes of the
-- screen agree, and the cursor is in its first place.
pub gpu_init-Attempts :
    (device : ℕ → Words → Words) (junk : ℕ → ℕ) (fuel : ℕ) {n : ℕ} {v v' : Video} (m : Bytes)
    → Attempts device junk n v v'
    → n < fuel
    → IsScreen v'.info
    → v'.info.width * 24 < 2 ^ 32
    → (m' : Bytes) × (gpu_init device fuel junk v m ≡ some (v', m'))
      × ((p : Addr)
          → m' p ≡ (
              if within v'.info.buf (v'.info.pitch * v'.info.height) p
              then blue_byte (p - v'.info.buf)
              else m p))
      × IsSized v'.info
      × IsCursor v'.info
      × (v'.info.chars_x ≡ 0)
      × (v'.info.chars_y ≡ 0)
unfolding gpu_init
gpu_init-Attempts device junk fuel {v' = v'} m a h is narrow =
    let last = Attempts-Sized a in
    let sized = Sized-IsSized last narrow in
    (
      fill_screen v'.info.height 0 v'.info m,
      rw (init_loop-Attempts device junk fuel a h),
      fill_screen-blue_byte v'.info is sized m,
      sized,
      Sized-IsCursor last narrow is,
      last.chars_x,
      last.chars_y,
    )
