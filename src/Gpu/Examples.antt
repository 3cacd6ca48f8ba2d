-- ===== src/Gpu/Examples.antt =====
-- The theorems on src/gpu.c on a screen of three columns and two rows.
use rpiosv.Base.{ℕ, ◌+◌, ◌*◌, ◌≡◌, ◌<◌, refl, arith, Addr, inr}
use rpiosv.Framebuffer.{FramebufferInfo}
use rpiosv.Gpu.{Screen, num_rows, shift_up, gpu_putc}
use rpiosv.Gpu.Pixels.{IsDrawable, pixel_at, shade, origin}
use rpiosv.Gpu.Glyph.{Outside}
use rpiosv.Gpu.Scroll.{IsScreen, moved_up, shift_up-moved_up}
use rpiosv.Gpu.Cursor.{IsCursor, SameScreen, scrolled, gpu_putc-IsCursor, gpu_putc-shade}
use rpiosv.Gpu.Fits.{IsSized}
use rpiosv.Gpu.Inside.{gpu_putc-inside, gpu_putc-past_end}

abbrev info : FramebufferInfo
info = record {
  width = 24;
  height = 16;
  pitch = 72;
  buf = 0x1000;
  buf_size = 1152;
  chars_width = 3;
  chars_height = 2;
  chars_x = 3;
  chars_y = 1;
}

-- The cursor behind the last column of the last row, and on its second column.
abbrev edge : Screen
edge = record { info = info; bytes = λ a. a }

abbrev middle : Screen
middle = record { info = record info { chars_x = 1 }; bytes = λ a. a }

abbrev font : ℕ → ℕ → ℕ
font c row = 0x55

is_screen : IsScreen info
is_screen = record { end = omega arith; some_row = omega arith; height_word = omega arith }

is_cursor : IsCursor info
unfolding num_rows
is_cursor = omega arith

middle-IsScreen : IsScreen middle.info
middle-IsScreen = record { end = omega arith; some_row = omega arith; height_word = omega arith }

middle-IsSized : IsSized middle.info
middle-IsSized = record { pitch_width = refl; columns = refl }

middle-IsCursor : IsCursor middle.info
unfolding num_rows
middle-IsCursor = omega arith

middle-IsDrawable : IsDrawable (scrolled middle).info
unfolding origin num_rows
middle-IsDrawable = record { wide = omega arith; column = omega arith; end = omega arith }

gpu_putc-IsCursor_example :
    IsCursor (gpu_putc font 65 edge).info × SameScreen info (gpu_putc font 65 edge).info
gpu_putc-IsCursor_example = gpu_putc-IsCursor font 65 edge is_cursor

shift_up-moved_up_example : (shift_up edge).bytes 0x1001 ≡ moved_up info (λ a. a) 0x1001
shift_up-moved_up_example = shift_up-moved_up edge is_screen 0x1001

gpu_putc-shade_example :
    ((w h k : ℕ)
      → w < 8
      → h < 8
      → k < 3
      → (gpu_putc font 65 middle).bytes (pixel_at (scrolled middle).info w h + k)
        ≡ shade (font 65) w h)
    × ((q : Addr)
        → Outside (scrolled middle).info 0 8 0 8 q
        → (gpu_putc font 65 middle).bytes q ≡ (scrolled middle).bytes q)
gpu_putc-shade_example = gpu_putc-shade font 65 middle (omega arith) middle-IsDrawable

gpu_putc-inside_example : (gpu_putc font 65 middle).bytes 0x1480 ≡ 0x1480
gpu_putc-inside_example =
    gpu_putc-inside font 65 middle 0x1480 middle-IsScreen middle-IsSized middle-IsCursor
      (omega arith) (inr (omega arith))

-- The byte behind the end of the buffer, for two characters from the last column on.
abbrev corner : Screen
corner = record { info = record info { chars_x = 2 }; bytes = λ a. a }

corner-IsScreen : IsScreen corner.info
corner-IsScreen = record { end = omega arith; some_row = omega arith; height_word = omega arith }

corner-IsSized : IsSized corner.info
corner-IsSized = record { pitch_width = refl; columns = refl }

gpu_putc-past_end_example :
    ((gpu_putc font 65 corner).info.chars_x ≡ 3)
    × ((gpu_putc font 66 (gpu_putc font 65 corner)).bytes (0x1000 + 72 * 16 + 0)
        ≡ shade (font 66) 0 7)
gpu_putc-past_end_example =
    gpu_putc-past_end font 65 66 corner 0 corner-IsScreen corner-IsSized (omega arith) (omega arith)
      refl refl refl (omega arith) (omega arith)
