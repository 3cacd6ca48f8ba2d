-- ===== src/Gpu/Cursor.antt =====
-- `gpu_putc`: what it draws, and where the cursor stands afterwards.
use rpiosv.Base.{ℕ, ◌+◌, ◌^◌, ◌<◌, ◌≤◌, ◌≡◌, ◌≢◌, false, ◌==◌, leb, if◌then◌else◌, arith, Addr}
use rpiosv.Framebuffer.{FramebufferInfo}
use rpiosv.Gpu.{Screen, num_rows, shift_up, new_line, advance, glyph_loop, put_at_cursor, gpu_putc}
use rpiosv.Gpu.Pixels.{IsDrawable, pixel_at, shade}
use rpiosv.Gpu.Glyph.{Outside, glyph_loop-hit, glyph_loop-miss}

-- The cursor is at most one column behind the last and one row below the last, on a screen that
-- does not change.
pub record IsCursor (info : FramebufferInfo) : Type 0 where
  pub x : info.chars_x ≤ info.chars_width
  pub y : info.chars_y ≤ num_rows info
  pub some_row : 1 ≤ num_rows info
  pub x_word : info.chars_width + 1 < 2 ^ 32
  pub y_word : num_rows info < 2 ^ 32

-- All but the cursor.
pub record SameScreen (info info' : FramebufferInfo) : Type 0 where
  pub width : info'.width ≡ info.width
  pub height : info'.height ≡ info.height
  pub pitch : info'.pitch ≡ info.pitch
  pub buf : info'.buf ≡ info.buf
  pub buf_size : info'.buf_size ≡ info.buf_size
  pub chars_width : info'.chars_width ≡ info.chars_width
  pub chars_height : info'.chars_height ≡ info.chars_height

-- Every character leaves the cursor at most one column behind the last and one row below the last,
-- where it was so before, and the sizes of the screen as they were.
pub gpu_putc-IsCursor :
    (font : ℕ → ℕ → ℕ) (c : ℕ) (s : Screen)
    → IsCursor s.info
    → IsCursor (gpu_putc font c s).info × SameScreen s.info (gpu_putc font c s).info
unfolding gpu_putc put_at_cursor advance new_line shift_up num_rows
gpu_putc-IsCursor font c s is = ground arith

-- The screen once it has room for the line of the cursor.
abbrev pub scrolled : Screen → Screen
scrolled s = if leb (num_rows s.info) s.info.chars_y then shift_up s else s

-- Any character but a newline is drawn at the cursor, after scrolling where the cursor is below
-- the last row: each of its 64 pixels is white or black by its bit in the bitmap, and no other byte
-- changes.
pub gpu_putc-shade :
    (font : ℕ → ℕ → ℕ) (c : ℕ) (s : Screen)
    → c ≢ 10
    → IsDrawable (scrolled s).info
    → ((w h k : ℕ)
        → w < 8
        → h < 8
        → k < 3
        → (gpu_putc font c s).bytes (pixel_at (scrolled s).info w h + k) ≡ shade (font c) w h)
      × ((q : Addr)
          → Outside (scrolled s).info 0 8 0 8 q
          → (gpu_putc font c s).bytes q ≡ (scrolled s).bytes q)
unfolding gpu_putc put_at_cursor advance new_line
gpu_putc-shade font c s other is =
    let t = scrolled s in
    let drawn = glyph_loop 8 0 (font c) t.info t.bytes in
    let plain : (c == 10) ≡ false = ground arith in
    let bytes : (gpu_putc font c s).bytes ≡ drawn = rw plain (ground arith) in
    (
      λ w h k lw lh lk. rw bytes (
          glyph_loop-hit t.info is (font c) 8 0 w h k t.bytes (omega arith) (omega arith)
            (omega (arith, lw)) lh lk),
      λ q out. rw bytes (glyph_loop-miss t.info is (font c) 8 0 t.bytes q (omega arith) out),
    )
