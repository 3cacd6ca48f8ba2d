-- ===== src/Gpu.antt =====
-- The text console of src/gpu.c: pixels, characters, scrolling and the cursor. The bitmap of a
-- character, which src/font.h has from a font library, is a parameter. The frame buffer is a
-- memory of bytes.
pub mod Pixels
pub mod Glyph
pub mod Scroll
pub mod Cursor
pub mod Fits
pub mod Inside
pub mod Clear
pub mod Start
mod Examples
use rpiosv.Base.{
  ℕ, zero, suc, ◌+◌, ◌-◌, ◌*◌, ◌/◌, ◌%◌, ◌^◌, Bool, Option, none, some, List, [], ◌∷◌, ◌>>=◌, ltb,
  leb, ◌==◌, if◌then◌else◌, bit_and, Addr, update,
}
use rpiosv.Memory.{u32, sub32}
use rpiosv.Mailbox.{Words}
use rpiosv.Stdlib.{mcpy, mzero}
use rpiosv.Framebuffer.{
  FramebufferInfo, Video, times_bytes_per_pixel, put_literal, codes, crlf, framebuffer_init,
}

pub record Pixel : Type 0 where
  pub red : ℕ
  pub green : ℕ
  pub blue : ℕ

abbrev pub white : Pixel
white = record { red = 0xff; green = 0xff; blue = 0xff }

abbrev pub black : Pixel
black = record { red = 0; green = 0; blue = 0 }

abbrev pub blue_pixel : Pixel
blue_pixel = record { red = 0; green = 0; blue = 0xff }

-- The memory, by bytes.
abbrev pub Bytes : Type 0
Bytes = Addr → ℕ

unfoldable pub location : FramebufferInfo → (x y : ℕ) → Addr
location info x y = u32 (info.buf + y * info.pitch + times_bytes_per_pixel x)

-- The three bytes of the pixel are copied.
unfoldable pub write_pixel : FramebufferInfo → (x y : ℕ) → Pixel → Bytes → Bytes
unfolding location
write_pixel info x y pix m =
    let p = location info x y in
    update (update (update m p pix.red) (p + 1) pix.green) (p + 2) pix.blue

-- The bit of the bitmap for column `w` and row `h`.
unfoldable pub is_set : (bmp : ℕ → ℕ) → (w h : ℕ) → Bool
is_set bmp w h = if bit_and (bmp h) (2 ^ w % 256) == 0 then Bool.false else Bool.true

unfoldable pub colour : (bmp : ℕ → ℕ) → (w h : ℕ) → Pixel
unfolding is_set
colour bmp w h = if is_set bmp w h then white else black

-- The loop over the rows of a character, in column `w`.
unfoldable pub column_loop : (rounds w h : ℕ) → (bmp : ℕ → ℕ) → FramebufferInfo → Bytes → Bytes
unfolding write_pixel colour
column_loop zero w h bmp info m = m
column_loop (suc rounds) w h bmp info m =
    column_loop rounds w (suc h) bmp info
      (write_pixel info (info.chars_x * 8 + w) (info.chars_y * 8 + h) (colour bmp w h) m)

-- The loop over its columns.
unfoldable pub glyph_loop : (rounds w : ℕ) → (bmp : ℕ → ℕ) → FramebufferInfo → Bytes → Bytes
unfolding column_loop
glyph_loop zero w bmp info m = m
glyph_loop (suc rounds) w bmp info m =
    glyph_loop rounds (suc w) bmp info (column_loop 8 w 0 bmp info m)

unfoldable pub num_rows : FramebufferInfo → ℕ
num_rows info = info.height / 8

-- Where the character row `i` begins, and the bytes in a row.
unfoldable pub row_at : FramebufferInfo → (i : ℕ) → Addr
row_at info i = u32 (info.buf + info.pitch * i * 8)

unfoldable pub row_bytes : FramebufferInfo → ℕ
row_bytes info = u32 (info.pitch * 8)

-- The loop that copies each character row into the one above it.
unfoldable pub shift_loop : (rounds i : ℕ) → FramebufferInfo → Bytes → Bytes
shift_loop zero i info m = m
shift_loop (suc rounds) i info m =
    shift_loop rounds (suc i) info (mcpy (row_at info i) (row_at info (i + 1)) (row_bytes info) m)

pub record Screen : Type 0 where
  pub info : FramebufferInfo
  pub bytes : Bytes

-- The rows move up by one, and the last one is cleared.
unfoldable pub shift_up : Screen → Screen
unfolding shift_loop
shift_up s =
    let rounds = sub32 (num_rows s.info) 1 in
    record s {
      info = record s.info { chars_y = sub32 s.info.chars_y 1 };
      bytes = mzero (row_at s.info rounds) (row_bytes s.info) (shift_loop rounds 0 s.info s.bytes);
    }

unfoldable pub new_line : Screen → Screen
new_line s = record s { info = record s.info { chars_x = 0; chars_y = u32 (s.info.chars_y + 1) } }

-- `chars_x++` and the wrap.
unfoldable pub advance : Screen → Screen
unfolding new_line
advance s =
    let x = u32 (s.info.chars_x + 1) in
    let moved : Screen = record s { info = record s.info { chars_x = x } } in
    if ltb s.info.chars_width x then new_line moved else moved

-- What is done behind the scrolling.
unfoldable pub put_at_cursor : (font : ℕ → ℕ → ℕ) → (c : ℕ) → Screen → Screen
unfolding new_line glyph_loop advance
put_at_cursor font c s =
    if c == 10
    then new_line s
    else advance (record s { bytes = glyph_loop 8 0 (font c) s.info s.bytes })

pub gpu_putc : (font : ℕ → ℕ → ℕ) → (c : ℕ) → Screen → Screen
unfolding shift_up put_at_cursor num_rows
gpu_putc font c s =
    put_at_cursor font c (if leb (num_rows s.info) s.info.chars_y then shift_up s else s)

-- The loops that clear the screen.
unfoldable pub fill_row : (rounds x y : ℕ) → FramebufferInfo → Bytes → Bytes
unfolding write_pixel
fill_row zero x y info m = m
fill_row (suc rounds) x y info m =
    fill_row rounds (suc x) y info (write_pixel info x y blue_pixel m)

unfoldable pub fill_screen : (rounds y : ℕ) → FramebufferInfo → Bytes → Bytes
unfolding fill_row
fill_screen zero y info m = m
fill_screen (suc rounds) y info m = fill_screen rounds (suc y) info (fill_row info.width 0 y info m)

module _ (device : ℕ → Words → Words) where
  -- The loop until there is a frame buffer. `none` stands for one that has not ended.
  pub init_loop : (fuel : ℕ) → (junk : ℕ → ℕ) → Video → Option Video
  init_loop zero junk v = none
  init_loop (suc fuel) junk v = do
    (res, v') ← framebuffer_init device junk v
    let again = put_literal (codes "Had to try again") v'.out >>= put_literal crlf >>= λ o.
        init_loop fuel junk (record v' { out = o })
    if res == 0 then some v' else again

  pub gpu_init : (fuel : ℕ) → (junk : ℕ → ℕ) → Video → Bytes → Option (Video × Bytes)
  unfolding init_loop
  gpu_init fuel junk v m = do
    v' ← init_loop fuel junk v
    some (v', fill_screen v'.info.height 0 v'.info m)
