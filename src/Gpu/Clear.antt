-- ===== src/Gpu/Clear.antt =====
-- The loops of `gpu_init` that clear the screen.
use rpiosv.Base.{
  ℕ, zero, suc, ◌+◌, ◌-◌, ◌*◌, ◌/◌, ◌%◌, ◌<◌, ◌≤◌, ◌≡◌, ◌∙◌, ap, true, false, ◌==◌, if◌then◌else◌,
  arith, Addr, Bool-cases, inl, inr,
}
use native.Mathlib.Nat.{mul-le-mul_left, mul-suc}
use rpiosv.Memory.{u32}
use rpiosv.Stdlib.Copy.{within}
use rpiosv.Framebuffer.{FramebufferInfo, times_bytes_per_pixel}
use rpiosv.Gpu.{Bytes, location, write_pixel, blue_pixel, fill_row, fill_screen}
use rpiosv.Gpu.Scroll.{IsScreen}
use rpiosv.Gpu.Fits.{IsSized}

-- The byte at distance `d` from the start of the frame buffer, in a blue screen.
abbrev pub blue_byte : (d : ℕ) → ℕ
blue_byte d = if d % 3 == 2 then 0xff else 0

-- `size` bytes, and the `len` bytes behind them.
fill_step :
    (buf at size len : ℕ) (m m' : Bytes) (p : Addr)
    → ((q : Addr) → m' q ≡ (if within (buf + at) size q then blue_byte (q - buf) else m q))
    → (if within (buf + (at + size)) len p then blue_byte (p - buf) else m' p)
      ≡ (if within (buf + at) (len + size) p then blue_byte (p - buf) else m p)
fill_step buf at size len m m' p one = elim (Bool-cases (within (buf + (at + size)) len p)) [
  | inl w ↦ let w' : within (buf + at) (len + size) p ≡ true = ground (arith, w) in rw (w, w')
  | inr w ↦ elim (Bool-cases (within (buf + at) size p)) [
    | inl v ↦
        let w' : within (buf + at) (len + size) p ≡ true = ground (arith, v) in rw (w, w', one p, v)
    | inr v ↦
        let w' : within (buf + at) (len + size) p ≡ false = ground (arith, w, v) in
        rw (w, w', one p, v)
  ]
]

module _ (info : FramebufferInfo) (is : IsScreen info) (sized : IsSized info) where
  -- Where the pixel stands, from the start of the frame buffer.
  abbrev place : (x y : ℕ) → ℕ
  place x y = info.pitch * y + x * 3

  location-place :
      (x y : ℕ) → x < info.width → y < info.height → location info x y ≡ info.buf + place x y
  unfolding location times_bytes_per_pixel
  location-place x y lx ly =
      let rows = mul-le-mul_left {m = suc y} {n = info.height} info.pitch ly in
      let row = mul-suc info.pitch y in
      let turned : y * info.pitch ≡ info.pitch * y = grind arith in
      let eight = mul-le-mul_left {m = 8} {n = info.height} info.pitch is.some_row in
      let three : u32 (x * 24) / 8 ≡ x * 3 = omega (arith, eight, is.end, sized.pitch_width, lx) in
      omega (arith, rows, row, turned, three, is.end, sized.pitch_width, lx)

  one_pixel :
      (x y : ℕ) (m : Bytes) (q : Addr)
      → x < info.width
      → y < info.height
      → write_pixel info x y blue_pixel m q
        ≡ (if within (info.buf + place x y) 3 q then blue_byte (q - info.buf) else m q)
  unfolding write_pixel
  one_pixel x y m q lx ly =
      let at = location-place x y lx ly in
      let triple : info.pitch * y ≡ 3 * (info.width * y) =
        ap (λ (t : ℕ). t * y) sized.pitch_width ∙ grind arith in
      rw at (ground (arith, triple))

  fill_row-within :
      (rounds x y : ℕ) (m : Bytes) (p : Addr)
      → x + rounds ≤ info.width
      → y < info.height
      → fill_row rounds x y info m p
        ≡ (if within (info.buf + place x y) (3 * rounds) p then blue_byte (p - info.buf) else m p)
  unfolding fill_row
  fill_row-within zero x y m p lx ly =
      let w : within (info.buf + place x y) (3 * 0) p ≡ false = ground arith in rw w
  fill_row-within (suc rounds) x y m p lx ly =
      let m' = write_pixel info x y blue_pixel m in
      let rest = fill_row-within rounds (suc x) y m' p (omega (arith, lx)) ly in
      let next : place (suc x) y ≡ place x y + 3 = omega arith in
      let long : 3 * suc rounds ≡ 3 * rounds + 3 = omega arith in
      rw long (
        (rw next at rest)
        ∙ fill_step info.buf (place x y) 3 (3 * rounds) m m' p
            (λ q. one_pixel x y m q (omega (arith, lx)) ly))

  fill_screen-within :
      (rounds y : ℕ) (m : Bytes) (p : Addr)
      → y + rounds ≤ info.height
      → fill_screen rounds y info m p ≡ (
          if within (info.buf + info.pitch * y) (info.pitch * rounds) p
          then blue_byte (p - info.buf)
          else m p)
  unfolding fill_screen
  fill_screen-within zero y m p ly =
      let w : within (info.buf + info.pitch * y) (info.pitch * 0) p ≡ false = ground arith in rw w
  fill_screen-within (suc rounds) y m p ly =
      let m' = fill_row info.width 0 y info m in
      let rest = fill_screen-within rounds (suc y) m' p (omega (arith, ly)) in
      let next = mul-suc info.pitch y in
      let long = mul-suc info.pitch rounds in
      let row : 3 * info.width ≡ info.pitch = omega (arith, sized.pitch_width) in
      let start : place 0 y ≡ info.pitch * y = omega arith in
      let one : (q : Addr)
          → m' q ≡ (
              if within (info.buf + info.pitch * y) info.pitch q
              then blue_byte (q - info.buf)
              else m q) =
        λ q.
          rw (start, row) at
            (fill_row-within info.width 0 y m q (omega arith) (omega (arith, ly))) in
      rw long (
        (rw next at rest)
        ∙ fill_step info.buf (info.pitch * y) info.pitch (info.pitch * rounds) m m' p one)

  -- Clearing the screen makes every pixel blue, and changes no byte outside of the frame buffer.
  pub fill_screen-blue_byte :
      (m : Bytes) (p : Addr)
      → fill_screen info.height 0 info m p
        ≡ (if within info.buf (info.pitch * info.height) p then blue_byte (p - info.buf) else m p)
  fill_screen-blue_byte m p =
      let start : info.buf + info.pitch * 0 ≡ info.buf = omega arith in
      rw start at (fill_screen-within info.height 0 m p (omega arith))
