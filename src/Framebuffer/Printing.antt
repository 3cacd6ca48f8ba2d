-- ===== src/Framebuffer/Printing.antt =====
-- The lines that `framebuffer_init` prints.
use rpiosv.Base.{
  ℕ, suc, ◌^◌, ◌<◌, ◌≡◌, ◌≢◌, refl, Option, some, List, [], ◌∷◌, ◌++◌, ◌>>=◌, ltb, arith, Addr,
  Bool-cases, inl, inr,
}
use rpiosv.Stdlib.Itoa.{InInt}
use rpiosv.Stdlib.Shown.{IsText, shown, itoa-shown}
use rpiosv.Uart.Text.{Took, Took-append, uart_puts-Took}
use rpiosv.Stdout.{Output}
use rpiosv.Stdout.Printing.{Room, Room-append, Room-left}
use rpiosv.Framebuffer.{
  FramebufferInfo, literal, crlf, codes, as_int, put_literal, put_hex, report, print_size,
  print_buffer,
}

-- No character is 0.
abbrev pub Plain : List ℕ → Type 0
Plain [] = Unit
Plain (c ∷ s) = (c ≢ 0) × Plain s

shifted-IsText :
    (p : Addr) (s : List ℕ) (text : Addr → ℕ)
    → IsText p s (λ a. text (suc a))
    → IsText (suc p) s text
shifted-IsText p [] text is = is
shifted-IsText p (c ∷ s) text is = (is.0, is.1, shifted-IsText (suc p) s text is.2)

literal-IsText : (s : List ℕ) → Plain s → IsText 0 s (literal s)
literal-IsText [] plain = refl
literal-IsText (c ∷ s) plain =
    (refl, plain.0, shifted-IsText 0 s (literal (c ∷ s)) (literal-IsText s plain.1))

as_int-InInt : (n : ℕ) → n < 2 ^ 32 → InInt (as_int n)
unfolding as_int
as_int-InInt n h = elim (Bool-cases (ltb n (2 ^ 31))) [
  | inl e ↦ rw e (ground arith)
  | inr e ↦ rw e (ground arith)
]

-- The UART took the characters.
abbrev pub Put : (Output → Option Output) → List ℕ → Output → Type 0
Put f s o = (o' : Output) × (f o ≡ some o') × Took s o.uart o'.uart

put_literal-Put : (s : List ℕ) (o : Output) → Plain s → Room s o → Put (put_literal s) s o
unfolding put_literal
put_literal-Put s o plain h =
    let (u, put, took) = uart_puts-Took s (literal s) 0 o.uart (literal-IsText s plain) h in
    (record o { uart = u }, rw put, took)

put_hex-Put :
    (n : ℕ) (o : Output)
    → n < 2 ^ 32
    → Room (shown (as_int n) 16) o
    → Put (put_hex n) (shown (as_int n) 16) o
unfolding put_hex
put_hex-Put n o small h =
    let (buf, returns, is) =
      itoa-shown (as_int n) 16 o.intbuf (as_int-InInt n small) (omega arith) (omega arith) in
    let (u, put, took) = uart_puts-Took (shown (as_int n) 16) buf 0 o.uart is h in
    (record o { intbuf = buf; uart = u }, rw (returns, put), took)

-- One after another.
Put-append :
    (f g : Output → Option Output) (s t : List ℕ) (o : Output)
    → Room (s ++ t) o
    → (Room s o → Put f s o)
    → ((o' : Output) → Room t o' → Put g t o')
    → Put (λ x. f x >>= g) (s ++ t) o
Put-append f g s t o h first then' =
    let (o', put, took) = first (Room-left s t o h) in
    let (o'', put', took') = then' o' (Room-append s t o o' h took) in
    (o'', rw (put, ◌>>=◌) put', Took-append took took')

-- A line: the label, the number in base 16 and the end of the line.
abbrev pub line : (label : List ℕ) → (value : ℕ) → List ℕ
line label value = (label ++ shown (as_int value) 16) ++ crlf

report-Put :
    (label : List ℕ) (value : ℕ) (o : Output)
    → Plain label
    → value < 2 ^ 32
    → Room (line label value) o
    → Put (report label value) (line label value) o
unfolding report
report-Put label value o plain small h =
    Put-append (λ x. put_literal label x >>= put_hex value) (put_literal crlf)
      (label ++ shown (as_int value) 16) crlf o h
      (λ r.
        Put-append (put_literal label) (put_hex value) label (shown (as_int value) 16) o r
          (put_literal-Put label o plain) (λ o'. put_hex-Put value o' small))
      (λ o'. put_literal-Put crlf o' (omega arith))

-- The two lines of the screen, and those of the buffer.
abbrev pub size_lines : FramebufferInfo → List ℕ
size_lines info =
    line (codes "framebuffer width: ") info.width ++ line (codes "framebuffer height: ") info.height

abbrev pub buffer_lines : FramebufferInfo → List ℕ
buffer_lines info =
    line (codes "framebuffer buffer: ") info.buf ++ line (codes "framebuffer size: ") info.buf_size

pub print_size-Put :
    (info : FramebufferInfo) (o : Output)
    → info.width < 2 ^ 32
    → info.height < 2 ^ 32
    → Room (size_lines info) o
    → Put (print_size info) (size_lines info) o
unfolding print_size
print_size-Put info o w h r =
    Put-append (report (codes "framebuffer width: ") info.width)
      (report (codes "framebuffer height: ") info.height) _ _ o r
      (report-Put (codes "framebuffer width: ") info.width o (omega arith) w)
      (λ o'. report-Put (codes "framebuffer height: ") info.height o' (omega arith) h)

pub print_buffer-Put :
    (info : FramebufferInfo) (o : Output)
    → info.buf < 2 ^ 32
    → info.buf_size < 2 ^ 32
    → Room (buffer_lines info) o
    → Put (print_buffer info) (buffer_lines info) o
unfolding print_buffer
print_buffer-Put info o b z r =
    Put-append (report (codes "framebuffer buffer: ") info.buf)
      (report (codes "framebuffer size: ") info.buf_size) _ _ o r
      (report-Put (codes "framebuffer buffer: ") info.buf o (omega arith) b)
      (λ o'. report-Put (codes "framebuffer size: ") info.buf_size o' (omega arith) z)
