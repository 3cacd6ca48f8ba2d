-- ===== src/Gpu/Pixels.antt =====
-- Where the pixels of a character stand.
use rpiosv.Base.{
  ℕ, suc, ◌+◌, ◌*◌, ◌/◌, ◌^◌, ◌<◌, ◌≤◌, ◌≡◌, ◌≢◌, ◌⊎◌, ap, if◌then◌else◌, arith, Addr, Bool-cases,
  inl, inr, ◌==◌, ◌%◌, true, false, refl, bit_at, mask_fits, bit_and-zero_at,
}
use native.Mathlib.Nat.{mul-le-mul_left, mul-suc}
use rpiosv.Memory.{u32}
use rpiosv.Framebuffer.{FramebufferInfo, times_bytes_per_pixel}
use rpiosv.Gpu.{Bytes, location, write_pixel, is_set, colour}

-- The place of the first pixel of the character at the cursor.
unfoldable pub origin : FramebufferInfo → Addr
origin info = info.buf + info.chars_y * 8 * info.pitch + info.chars_x * 24

-- A character at the cursor lies below 2 ^ 32, and a row of pixels has room for one.
pub record IsDrawable (info : FramebufferInfo) : Type 0 where
  pub wide : 24 ≤ info.pitch
  pub column : info.chars_x < 2 ^ 24
  pub end : origin info + info.pitch * 7 + 24 ≤ 2 ^ 32

-- The place of the pixel in column `w` and row `h` of the character.
abbrev pub pixel_at : FramebufferInfo → (w h : ℕ) → Addr
pixel_at info w h = origin info + info.pitch * h + w * 3

pub location-pixel_at :
    (info : FramebufferInfo) (w h : ℕ)
    → IsDrawable info
    → w < 8
    → h < 8
    → location info (info.chars_x * 8 + w) (info.chars_y * 8 + h) ≡ pixel_at info w h
unfolding location times_bytes_per_pixel origin
location-pixel_at info w h is lw lh =
    let x : u32 ((info.chars_x * 8 + w) * 24) / 8 ≡ info.chars_x * 24 + w * 3 =
      omega (arith, is.column) in
    let rows : (info.chars_y * 8 + h) * info.pitch
        ≡ info.chars_y * 8 * info.pitch + info.pitch * h =
      grind arith in
    let high = mul-le-mul_left {m = h} {n = 7} info.pitch (omega (arith, lh)) in
    omega (arith, x, rows, high, is.end)

order : (a b : ℕ) → (a < b) ⊎ (b < a) ⊎ (a ≡ b)
order a b = ground arith

-- The three bytes of one pixel are apart from a byte of another.
pub pixel_at-apart :
    (info : FramebufferInfo) (w h w' h' k : ℕ)
    → 24 ≤ info.pitch
    → w < 8
    → w' < 8
    → k < 3
    → (w ≢ w') ⊎ (h ≢ h')
    → (pixel_at info w h + k < pixel_at info w' h')
      ⊎ (pixel_at info w' h' + 3 ≤ pixel_at info w h + k)
pixel_at-apart info w h w' h' k wide lw lw' lk ne = elim (order h h') [
  | inl lt ↦
      let far = mul-le-mul_left {m = suc h} {n = h'} info.pitch lt in
      inl (omega (arith, far, mul-suc info.pitch h, wide))
  | inr (inl gt) ↦
      let far = mul-le-mul_left {m = suc h'} {n = h} info.pitch gt in
      inr (omega (arith, far, mul-suc info.pitch h', wide))
  | inr (inr e) ↦
      let same : info.pitch * h ≡ info.pitch * h' = ap (λ (t : ℕ). info.pitch * t) e in
      elim (order w w') [
        | inl lt ↦ inl (omega (arith, same))
        | inr (inl gt) ↦ inr (omega (arith, same))
        | inr (inr e') ↦ absurd (elim ne [ inl n ↦ n e' | inr n ↦ n e ])
      ]
]

-- What a channel of a pixel gets.
abbrev pub shade : (bmp : ℕ → ℕ) → (w h : ℕ) → ℕ
shade bmp w h = if bit_at w (bmp h) == 0 then 0 else 0xff

is_set-bit_at :
    (bmp : ℕ → ℕ) (w h : ℕ)
    → w < 8
    → is_set bmp w h ≡ (if bit_at w (bmp h) == 0 then false else true)
unfolding is_set
is_set-bit_at bmp w h l =
    let whole : 2 ^ w % 256 ≡ 2 ^ w = mask_fits w 8 (omega (arith, l)) in
    rw (whole, bit_and-zero_at w (bmp h)) refl

module _ (info : FramebufferInfo) (is : IsDrawable info) (bmp : ℕ → ℕ) where
  -- One pixel of the character.
  abbrev pub draw : (w h : ℕ) → Bytes → Bytes
  draw w h m = write_pixel info (info.chars_x * 8 + w) (info.chars_y * 8 + h) (colour bmp w h) m

  pub draw-hit :
      (w h k : ℕ) (m : Bytes)
      → w < 8
      → h < 8
      → k < 3
      → draw w h m (pixel_at info w h + k) ≡ shade bmp w h
  unfolding write_pixel colour
  draw-hit w h k m lw lh lk =
      let at = location-pixel_at info w h is lw lh in
      let bit = is_set-bit_at bmp w h lw in
      elim (Bool-cases (bit_at w (bmp h) == 0)) [
        | inl e ↦ rw (at, bit, e) (ground arith)
        | inr e ↦ rw (at, bit, e) (ground arith)
      ]

  pub draw-miss :
      (w h : ℕ) (m : Bytes) (q : Addr)
      → w < 8
      → h < 8
      → (q < pixel_at info w h) ⊎ (pixel_at info w h + 3 ≤ q)
      → draw w h m q ≡ m q
  unfolding write_pixel
  draw-miss w h m q lw lh out =
      let at = location-pixel_at info w h is lw lh in rw at (ground (arith, out))
