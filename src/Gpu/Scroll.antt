-- ===== src/Gpu/Scroll.antt =====
-- Scrolling: each character row takes the place of the one above it.
use rpiosv.Base.{
  ℕ, zero, suc, ◌+◌, ◌-◌, ◌*◌, ◌^◌, ◌<◌, ◌≤◌, ◌≡◌, ◌∙◌, true, false, if◌then◌else◌, arith, Addr,
  Bool-cases, inl, inr,
}
use native.Mathlib.Nat.{mul-le-mul_left, mul-suc}
use rpiosv.Memory.{sub32}
use rpiosv.Stdlib.{mcpy}
use rpiosv.Stdlib.Copy.{within, mcpy-within, mzero-within}
use rpiosv.Framebuffer.{FramebufferInfo}
use rpiosv.Gpu.{Bytes, Screen, num_rows, row_at, row_bytes, shift_loop, shift_up}

-- The frame buffer lies below 2 ^ 31, and the screen has a row of characters.
pub record IsScreen (info : FramebufferInfo) : Type 0 where
  pub end : info.buf + info.pitch * info.height < 2 ^ 31
  pub some_row : 8 ≤ info.height
  pub height_word : info.height < 2 ^ 32

-- One row moved, and the others behind it: `len` bytes, from `at` on.
move_step :
    (at size len : ℕ) (m m' : Bytes) (p : Addr)
    → ((q : Addr) → m' q ≡ (if within at size q then m (at + size + (q - at)) else m q))
    → (if within (at + size) len p then m' (p + size) else m' p)
      ≡ (if within at (len + size) p then m (p + size) else m p)
move_step at size len m m' p one = elim (Bool-cases (within (at + size) len p)) [
  | inl w ↦
      let w' : within at (len + size) p ≡ true = ground (arith, w) in
      let out : within at size (p + size) ≡ false = ground (arith, w) in
      rw (w, w', one (p + size), out)
  | inr w ↦ elim (Bool-cases (within at size p)) [
    | inl v ↦
        let w' : within at (len + size) p ≡ true = ground (arith, v) in
        let same : at + size + (p - at) ≡ p + size = ground (arith, v) in rw (w, w', one p, v, same)
    | inr v ↦
        let w' : within at (len + size) p ≡ false = ground (arith, w, v) in rw (w, w', one p, v)
  ]
]

module _ (info : FramebufferInfo) (is : IsScreen info) where
  -- The bytes of a character row.
  abbrev pub row : ℕ
  row = info.pitch * 8

  pub rows-end : (i : ℕ) → i ≤ num_rows info → row * i ≤ info.pitch * info.height
  unfolding num_rows
  rows-end i h =
      let whole = mul-le-mul_left {m = i * 8} {n = info.height} info.pitch (omega (arith, h)) in
      let same : row * i ≡ info.pitch * (i * 8) = grind arith in omega (arith, whole, same)

  row_at-lem : (i : ℕ) → i ≤ num_rows info → row_at info i ≡ info.buf + row * i
  unfolding row_at
  row_at-lem i h =
      let same : row * i ≡ info.pitch * i * 8 = grind arith in
      omega (arith, rows-end i h, same, is.end)

  row_bytes-lem : row_bytes info ≡ row
  unfolding row_bytes num_rows
  row_bytes-lem = omega (arith, rows-end 1, is.end, is.some_row)

  shift_loop-within :
      (rounds i : ℕ) (m : Bytes) (p : Addr)
      → i + rounds < num_rows info
      → shift_loop rounds i info m p
        ≡ (if within (info.buf + row * i) (row * rounds) p then m (p + row) else m p)
  unfolding shift_loop
  shift_loop-within zero i m p h =
      let w : within (info.buf + row * i) (row * 0) p ≡ false = ground arith in rw w
  shift_loop-within (suc rounds) i m p h =
      let m' = mcpy (row_at info i) (row_at info (i + 1)) (row_bytes info) m in
      let at = info.buf + row * i in
      let next : row_at info (i + 1) ≡ at + row =
        row_at-lem (i + 1) (omega (arith, h)) ∙ omega (arith, mul-suc row i) in
      let one : (q : Addr) → m' q ≡ (if within at row q then m (at + row + (q - at)) else m q) =
        λ q.
          rw (row_at-lem i (omega (arith, h)), next, row_bytes-lem)
            (mcpy-within at (at + row) row m (inl (omega arith)) q) in
      let rest = shift_loop-within rounds (suc i) m' p (omega (arith, h)) in
      let from : info.buf + row * suc i ≡ at + row = omega (arith, mul-suc row i) in
      let long : row * suc rounds ≡ row * rounds + row = mul-suc row rounds in
      rw long ((rw from at rest) ∙ move_step at row (row * rounds) m m' p one)

-- The memory after the rows moved up: the last row is empty, every other row is the one that was
-- below it, and all else is as before.
abbrev pub moved_up : FramebufferInfo → Bytes → Addr → ℕ
moved_up info m p =
    let last = info.pitch * 8 * (num_rows info - 1) in
    if within (info.buf + last) (info.pitch * 8) p
    then 0
    else if within info.buf last p
    then m (p + info.pitch * 8)
    else m p

-- On a screen with a row of characters, in a frame buffer that ends below 2 ^ 31, scrolling moves
-- every row of characters to the place of the one above it and clears the last row. No other byte
-- changes.
pub shift_up-moved_up :
    (s : Screen) → IsScreen s.info → (p : Addr) → (shift_up s).bytes p ≡ moved_up s.info s.bytes p
unfolding shift_up num_rows
shift_up-moved_up s is p =
    let info = s.info in
    let some_row : 1 ≤ num_rows info = omega (arith, is.some_row) in
    let n = num_rows info - 1 in
    let few : num_rows info < 2 ^ 31 = omega (arith, is.height_word) in
    let rounds : sub32 (num_rows info) 1 ≡ n = omega (arith, some_row, few) in
    let start : info.buf + info.pitch * 8 * 0 ≡ info.buf = omega arith in
    let shifted = rw start at (shift_loop-within info is n 0 s.bytes p (omega (arith, some_row))) in
    let cleared = mzero-within (row_at info n) (row_bytes info) (shift_loop n 0 info s.bytes) p in
    let at = row_at-lem info is n (omega (arith, some_row)) in
    let bytes = row_bytes-lem info is in
    let cleared' = rw (at, bytes, shifted) at cleared in rw (rounds, at, bytes) cleared'
