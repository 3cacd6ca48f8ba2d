-- ===== src/Gpu/Inside.antt =====
-- Whether a character stays inside the frame buffer.
use rpiosv.Base.{
  ℕ, refl, ltb, ◌^◌, ◌+◌, ◌*◌, ◌<◌, ◌≤◌, ◌≡◌, ◌≢◌, ◌⊎◌, ◌∙◌, ap, sym, subst, true, false, ◌==◌, leb,
  arith, Addr, Bool-cases, inl, inr,
}
use native.Mathlib.Nat.{mul-le-mul_left}
use rpiosv.Framebuffer.{FramebufferInfo}
use rpiosv.Memory.{u32}
use rpiosv.Gpu.{Bytes, Screen, num_rows, new_line, advance, put_at_cursor, gpu_putc}
use rpiosv.Gpu.Scroll.{IsScreen}
use rpiosv.Gpu.Pixels.{origin, IsDrawable, pixel_at, shade}
use rpiosv.Gpu.Cursor.{IsCursor, scrolled, gpu_putc-shade}
use rpiosv.Gpu.Fits.{IsSized, scrolled-inside, scrolled-Ready, Ready-Outside}

newline-bytes :
    (font : ℕ → ℕ → ℕ) (c : ℕ) (s : Screen)
    → (c == 10) ≡ true
    → (gpu_putc font c s).bytes ≡ (scrolled s).bytes
unfolding gpu_putc put_at_cursor new_line
newline-bytes font c s e = rw e

-- With the cursor on a column of the screen, `gpu_putc` changes no byte outside of the frame
-- buffer.
pub gpu_putc-inside :
    (font : ℕ → ℕ → ℕ) (c : ℕ) (s : Screen) (q : Addr)
    → IsScreen s.info
    → IsSized s.info
    → IsCursor s.info
    → s.info.chars_x < s.info.chars_width
    → (q < s.info.buf) ⊎ (s.info.buf + s.info.pitch * s.info.height ≤ q)
    → (gpu_putc font c s).bytes q ≡ s.bytes q
gpu_putc-inside font c s q is sized cursor col out = elim (Bool-cases (c == 10)) [
  | inl e ↦ ap (λ (f : Bytes). f q) (newline-bytes font c s e) ∙ scrolled-inside s q is out
  | inr e ↦
      let (drawable, outside) = Ready-Outside q (scrolled-Ready s cursor) is sized col out in
      (gpu_putc-shade font c s (ground arith) drawable).1 q outside ∙ scrolled-inside s q is out
]

last_pixel :
    (info : FramebufferInfo)
    → info.height ≡ 8 * (info.chars_y + 1)
    → info.chars_x * 24 ≡ info.pitch
    → pixel_at info 0 7 ≡ info.buf + info.pitch * info.height
unfolding origin
last_pixel info height wide =
    let rows : info.pitch * info.height ≡ info.pitch * (8 * (info.chars_y + 1)) =
      ap (λ (t : ℕ). info.pitch * t) height in
    let split : info.pitch * (8 * (info.chars_y + 1))
        ≡ info.chars_y * 8 * info.pitch + info.pitch * 7 + info.pitch =
      grind arith in
    omega (arith, rows, split, wide)

-- A character with the cursor one column behind the last, in the last row.
behind_last :
    (font : ℕ → ℕ → ℕ) (c : ℕ) (s : Screen) (k : ℕ)
    → IsScreen s.info
    → IsSized s.info
    → c ≢ 10
    → s.info.width ≡ 8 * s.info.chars_width
    → s.info.height ≡ 8 * (s.info.chars_y + 1)
    → s.info.chars_x ≡ s.info.chars_width
    → 0 < s.info.chars_width
    → k < 3
    → (gpu_putc font c s).bytes (s.info.buf + s.info.pitch * s.info.height + k) ≡ shade (font c) 0 7
behind_last font c s k is sized other width height x some_column lk =
    let info = s.info in
    let wide : info.chars_x * 24 ≡ info.pitch = omega (arith, x, width, sized.pitch_width) in
    let at = last_pixel info height wide in
    let eight = mul-le-mul_left {m = 8} {n = info.height} info.pitch is.some_row in
    let room : (leb (num_rows info) info.chars_y) ≡ false =
      unfold num_rows in ground (arith, height) in
    let there : scrolled s ≡ s = rw room in
    let next_pixel : origin info + info.pitch * 7 + 0 * 3 ≡ info.buf + info.pitch * info.height =
      at in
    let drawable : IsDrawable info = record {
      wide = omega (arith, x, some_column, wide);
      column = omega (arith, wide, eight, is.end);
      end = omega (arith, next_pixel, is.end);
    } in
    let drawable' : IsDrawable (scrolled s).info =
      subst (λ (t : Screen). IsDrawable t.info) (sym there) drawable in
    let drawn = (gpu_putc-shade font c s other drawable').0 0 7 k (omega arith) (omega arith) lk in
    subst (λ (a : Addr). (gpu_putc font c s).bytes (a + k) ≡ shade (font c) 0 7) at
      (subst
        (λ (t : Screen). (gpu_putc font c s).bytes (pixel_at t.info 0 7 + k) ≡ shade (font c) 0 7)
        there drawn)

-- A character on the last column leaves the cursor one column behind it, in the same row.
full_line :
    (font : ℕ → ℕ → ℕ) (c : ℕ) (s : Screen)
    → c ≢ 10
    → s.info.chars_y < num_rows s.info
    → s.info.chars_x + 1 ≡ s.info.chars_width
    → s.info.chars_width < 2 ^ 32
    → (gpu_putc font c s).info ≡ record s.info { chars_x = s.info.chars_width }
unfolding gpu_putc put_at_cursor advance
full_line font c s other row last small =
    let room : leb (num_rows s.info) s.info.chars_y ≡ false = ground (arith, row) in
    let plain : (c == 10) ≡ false = ground (arith, other) in
    let x : u32 (s.info.chars_x + 1) ≡ s.info.chars_width = omega (arith, last, small) in
    let stays : ltb s.info.chars_width s.info.chars_width ≡ false = ground arith in
    rw (room, plain, x, stays) refl

-- On a screen of whole characters, with the cursor on the last column of the last row, a character
-- leaves the cursor one column behind the last, and the next one is drawn behind the end of the
-- frame buffer: the three bytes there get the lowest bit of the last row of its bitmap.
pub gpu_putc-past_end :
    (font : ℕ → ℕ → ℕ) (c d : ℕ) (s : Screen) (k : ℕ)
    → IsScreen s.info
    → IsSized s.info
    → c ≢ 10
    → d ≢ 10
    → s.info.width ≡ 8 * s.info.chars_width
    → s.info.height ≡ 8 * (s.info.chars_y + 1)
    → s.info.chars_x + 1 ≡ s.info.chars_width
    → s.info.chars_width < 2 ^ 32
    → k < 3
    → ((gpu_putc font c s).info.chars_x ≡ s.info.chars_width)
      × ((gpu_putc font d (gpu_putc font c s)).bytes (s.info.buf + s.info.pitch * s.info.height + k)
          ≡ shade (font d) 0 7)
gpu_putc-past_end font c d s k is sized other other' width height last small lk =
    let row : s.info.chars_y < num_rows s.info = unfold num_rows in omega (arith, height) in
    let i = full_line font c s other row last small in
    let after = record s.info { chars_x = s.info.chars_width } in
    let t : Screen = record { info = after; bytes = (gpu_putc font c s).bytes } in
    let same : gpu_putc font c s ≡ t =
      ap (λ (x : FramebufferInfo). record { info = x; bytes = (gpu_putc font c s).bytes }) i in
    let is' : IsScreen after = record {
      end = is.end;
      some_row = is.some_row;
      height_word = is.height_word;
    } in
    let sized' : IsSized after = record {
      pitch_width = sized.pitch_width;
      columns = sized.columns;
    } in
    let drawn =
      behind_last font d t k is' sized' other' width height refl (omega (arith, last)) lk in
    (
      ap (λ (x : FramebufferInfo). x.chars_x) i,
      ap (λ (x : Screen). (gpu_putc font d x).bytes (s.info.buf + s.info.pitch * s.info.height + k))
            same
          ∙ drawn,
    )
