-- ===== src/Gpu/Glyph.antt =====
-- The loops that draw a character, against its bitmap.
use rpiosv.Base.{
  ℕ, zero, suc, ◌+◌, ◌<◌, ◌≤◌, ◌≡◌, ◌⊎◌, ◌∙◌, refl, subst, ◌==◌, arith, Addr, Bool-cases, inl, inr,
}
use rpiosv.Framebuffer.{FramebufferInfo}
use rpiosv.Gpu.{Bytes, column_loop, glyph_loop}
use rpiosv.Gpu.Pixels.{IsDrawable, pixel_at, pixel_at-apart, shade, draw, draw-hit, draw-miss}

-- A byte of no pixel in the columns from `w` and the rows from `h` on.
abbrev pub Outside : FramebufferInfo → (w columns h rows : ℕ) → Addr → Type 0
Outside info w columns h rows q =
    (i j : ℕ)
    → w ≤ i
    → i < w + columns
    → h ≤ j
    → j < h + rows
    → (q < pixel_at info i j) ⊎ (pixel_at info i j + 3 ≤ q)

module _ (info : FramebufferInfo) (is : IsDrawable info) (bmp : ℕ → ℕ) where
  pub column_loop-miss :
      (rounds w h : ℕ) (m : Bytes) (q : Addr)
      → w < 8
      → h + rounds ≤ 8
      → Outside info w 1 h rounds q
      → column_loop rounds w h bmp info m q ≡ m q
  unfolding column_loop
  column_loop-miss zero w h m q lw lh out = refl
  column_loop-miss (suc rounds) w h m q lw lh out =
      column_loop-miss rounds w (suc h) (draw info is bmp w h m) q lw (omega (arith, lh))
        (λ i j a b c d. out i j a b (omega (arith, c)) (omega (arith, d)))
      ∙ draw-miss info is bmp w h m q lw (omega (arith, lh))
          (out w h (omega arith) (omega arith) (omega arith) (omega arith))

  pub column_loop-hit :
      (rounds w h j k : ℕ) (m : Bytes)
      → w < 8
      → h + rounds ≤ 8
      → h ≤ j
      → j < h + rounds
      → k < 3
      → column_loop rounds w h bmp info m (pixel_at info w j + k) ≡ shade bmp w j
  unfolding column_loop
  column_loop-hit zero w h j k m lw lh a b lk = absurd (omega (arith, a, b))
  column_loop-hit (suc rounds) w h j k m lw lh a b lk = elim (Bool-cases (h == j)) [
    | inl e ↦
        let here : h ≡ j = ground arith in
        subst
          (λ (y : ℕ).
            column_loop (suc rounds) w h bmp info m (pixel_at info w y + k) ≡ shade bmp w y)
          here
          (column_loop-miss rounds w (suc h) (draw info is bmp w h m) (pixel_at info w h + k) lw
              (omega (arith, lh))
              (λ i y la lb lc ld.
                pixel_at-apart info w h i y k is.wide lw (omega (arith, la, lb, lw)) lk
                  (inr (omega (arith, lc))))
            ∙ draw-hit info is bmp w h k m lw (omega (arith, lh)) lk)
    | inr e ↦
        column_loop-hit rounds w (suc h) j k (draw info is bmp w h m) lw (omega (arith, lh))
          (ground arith) (omega (arith, b)) lk
  ]

  pub glyph_loop-miss :
      (rounds w : ℕ) (m : Bytes) (q : Addr)
      → w + rounds ≤ 8
      → Outside info w rounds 0 8 q
      → glyph_loop rounds w bmp info m q ≡ m q
  unfolding glyph_loop
  glyph_loop-miss zero w m q l out = refl
  glyph_loop-miss (suc rounds) w m q l out =
      glyph_loop-miss rounds (suc w) (column_loop 8 w 0 bmp info m) q (omega (arith, l))
        (λ i j a b c d. out i j (omega (arith, a)) (omega (arith, b)) c d)
      ∙ column_loop-miss 8 w 0 m q (omega (arith, l)) (omega arith)
          (λ i j a b c d. out i j a (omega (arith, b)) c d)

  pub glyph_loop-hit :
      (rounds w i j k : ℕ) (m : Bytes)
      → w + rounds ≤ 8
      → w ≤ i
      → i < w + rounds
      → j < 8
      → k < 3
      → glyph_loop rounds w bmp info m (pixel_at info i j + k) ≡ shade bmp i j
  unfolding glyph_loop
  glyph_loop-hit zero w i j k m l a b lj lk = absurd (omega (arith, a, b))
  glyph_loop-hit (suc rounds) w i j k m l a b lj lk = elim (Bool-cases (w == i)) [
    | inl e ↦
        let here : w ≡ i = ground arith in
        subst
          (λ (x : ℕ). glyph_loop (suc rounds) w bmp info m (pixel_at info x j + k) ≡ shade bmp x j)
          here
          (glyph_loop-miss rounds (suc w) (column_loop 8 w 0 bmp info m) (pixel_at info w j + k)
              (omega (arith, l))
              (λ x y la lb lc ld.
                pixel_at-apart info w j x y k is.wide (omega (arith, l)) (omega (arith, lb, l)) lk
                  (inl (omega (arith, la))))
            ∙ column_loop-hit 8 w 0 j k m (omega (arith, l)) (omega arith) (omega arith) lj lk)
    | inr e ↦
        glyph_loop-hit rounds (suc w) i j k (column_loop 8 w 0 bmp info m) (omega (arith, l))
          (ground arith) (omega (arith, b)) lj lk
  ]
