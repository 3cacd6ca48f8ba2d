-- ===== src/Gpu/Fits.antt =====
-- A character on the screen fits into the frame buffer, and so does the move of `shift_up`.
use rpiosv.Base.{
  ℕ, suc, ◌+◌, ◌-◌, ◌*◌, ◌/◌, ◌<◌, ◌≤◌, ◌≡◌, ◌⊎◌, ◌∙◌, ap, sym, false, leb, arith, Addr, Bool-cases,
  inl, inr,
}
use native.Mathlib.Nat.{mul-le-mul_left, mul-suc}
use rpiosv.Framebuffer.{FramebufferInfo}
use rpiosv.Stdlib.Copy.{within}
use rpiosv.Gpu.{Screen, num_rows, shift_up}
use rpiosv.Gpu.Scroll.{IsScreen, shift_up-moved_up, rows-end}
use rpiosv.Gpu.Pixels.{origin, IsDrawable, pixel_at}
use rpiosv.Gpu.Cursor.{IsCursor, scrolled}
use rpiosv.Gpu.Glyph.{Outside}

-- The sizes agree: three bytes for a pixel, eight pixels for a character.
pub record IsSized (info : FramebufferInfo) : Type 0 where
  pub pitch_width : info.pitch ≡ info.width * 3
  pub columns : info.chars_width ≡ info.width / 8

module _ (info : FramebufferInfo) (is : IsScreen info) (sized : IsSized info)
    (row : info.chars_y < num_rows info) (col : info.chars_x < info.chars_width) where
  -- The pixel rows up to the one of the character that is drawn.
  rows_below :
      (h : ℕ)
      → h < 8
      → info.chars_y * 8 * info.pitch + info.pitch * h + info.pitch ≤ info.pitch * info.height
  unfolding num_rows
  rows_below h lh =
      let whole =
        mul-le-mul_left {m = info.chars_y * 8 + suc h} {n = info.height} info.pitch
          (omega (arith, row, lh)) in
      let same : info.chars_y * 8 * info.pitch + info.pitch * h + info.pitch
          ≡ info.pitch * (info.chars_y * 8 + suc h) =
        grind arith in
      omega (arith, whole, same)

  pixel_at-inside :
      (w h : ℕ)
      → w < 8
      → h < 8
      → (info.buf ≤ pixel_at info w h)
        × (pixel_at info w h + 3 ≤ info.buf + info.pitch * info.height)
  unfolding origin
  pixel_at-inside w h lw lh =
      let below = rows_below h lh in
      (omega arith, omega (arith, below, sized.pitch_width, sized.columns, col, lw))

  inside-IsDrawable : IsDrawable info
  unfolding origin
  inside-IsDrawable =
      let below = rows_below 7 (omega arith) in
      let eight = mul-le-mul_left {m = 8} {n = info.height} info.pitch is.some_row in
      record {
        wide = omega (arith, sized.pitch_width, sized.columns, col);
        column = omega (arith, sized.pitch_width, sized.columns, col, eight, is.end);
        end = omega (arith, below, sized.pitch_width, sized.columns, col, is.end);
      }

-- Scrolling keeps to the frame buffer.
shift_up-inside :
    (s : Screen) (q : Addr)
    → IsScreen s.info
    → (q < s.info.buf) ⊎ (s.info.buf + s.info.pitch * s.info.height ≤ q)
    → (shift_up s).bytes q ≡ s.bytes q
shift_up-inside s q is out =
    let info = s.info in
    let n = num_rows info in
    let some_row : 1 ≤ n = unfold num_rows in omega (arith, is.some_row) in
    let all = rows-end info is n (omega arith) in
    let split : info.pitch * 8 * (n - 1) + info.pitch * 8 ≡ info.pitch * 8 * n =
      sym (mul-suc (info.pitch * 8) (n - 1))
      ∙ ap (λ (t : ℕ). info.pitch * 8 * t) {x = suc (n - 1)} {y = n} (omega (arith, some_row)) in
    let w : within (info.buf + info.pitch * 8 * (n - 1)) (info.pitch * 8) q ≡ false =
      ground (arith, out, all, split) in
    let w' : within info.buf (info.pitch * 8 * (n - 1)) q ≡ false =
      ground (arith, out, all, split) in
    shift_up-moved_up s is q ∙ rw (w, w')

pub scrolled-inside :
    (s : Screen) (q : Addr)
    → IsScreen s.info
    → (q < s.info.buf) ⊎ (s.info.buf + s.info.pitch * s.info.height ≤ q)
    → (scrolled s).bytes q ≡ s.bytes q
scrolled-inside s q is out = elim (Bool-cases (leb (num_rows s.info) s.info.chars_y)) [
  | inl e ↦ rw e (shift_up-inside s q is out)
  | inr e ↦ rw e
]

-- What the drawing sees of a screen that was scrolled.
pub record Ready (info info' : FramebufferInfo) : Type 0 where
  same_width : info'.width ≡ info.width
  same_height : info'.height ≡ info.height
  same_pitch : info'.pitch ≡ info.pitch
  same_buf : info'.buf ≡ info.buf
  same_columns : info'.chars_width ≡ info.chars_width
  same_x : info'.chars_x ≡ info.chars_x
  row : info'.chars_y < num_rows info'

pub scrolled-Ready : (s : Screen) → IsCursor s.info → Ready s.info (scrolled s).info
unfolding shift_up num_rows
scrolled-Ready s is = ground arith

Ready-product :
    {info info' : FramebufferInfo}
    → Ready info info'
    → info'.pitch * info'.height ≡ info.pitch * info.height
Ready-product r = cc

Ready-IsScreen : {info info' : FramebufferInfo} → Ready info info' → IsScreen info → IsScreen info'
Ready-IsScreen r is = record {
  end = omega (arith, Ready-product r, r.same_buf, is.end);
  some_row = omega (arith, r.same_height, is.some_row);
  height_word = omega (arith, r.same_height, is.height_word);
}

Ready-IsSized : {info info' : FramebufferInfo} → Ready info info' → IsSized info → IsSized info'
Ready-IsSized r sized = record {
  pitch_width = omega (arith, r.same_pitch, r.same_width, sized.pitch_width);
  columns = omega (arith, r.same_columns, r.same_width, sized.columns);
}

-- No byte outside of the frame buffer belongs to the character.
pub Ready-Outside :
    {info info' : FramebufferInfo} (q : Addr)
    → Ready info info'
    → IsScreen info
    → IsSized info
    → info.chars_x < info.chars_width
    → (q < info.buf) ⊎ (info.buf + info.pitch * info.height ≤ q)
    → IsDrawable info' × Outside info' 0 8 0 8 q
Ready-Outside {info} {info'} q r is sized col out =
    let is' = Ready-IsScreen r is in
    let sized' = Ready-IsSized r sized in
    let col' : info'.chars_x < info'.chars_width = omega (arith, r.same_x, r.same_columns, col) in
    (
      inside-IsDrawable info' is' sized' r.row col',
      λ w h a b c d.
          let (low, high) = pixel_at-inside info' is' sized' r.row col' w h b d in
          elim out [
            | inl below ↦ inl (omega (arith, low, below, r.same_buf))
            | inr above ↦ inr (omega (arith, high, above, r.same_buf, Ready-product r))
          ],
    )
