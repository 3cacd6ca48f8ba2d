-- ===== src/Stdout/Printing.antt =====
-- `prntf` prints what its format says.
use rpiosv.Base.{
  ℕ, zero, suc, ◌≤◌, ◌<◌, ◌≡◌, ◌≢◌, refl, sym, false, some, List, [], ◌∷◌, ◌++◌, ◌==◌, arith,
  length, length-append, append-nil, Addr,
}
use rpiosv.Base.Int.{ℤ}
use rpiosv.Interrupts.Level.{Level, set_interrupt_level-restore, disabled}
use rpiosv.Stdlib.Itoa.{InInt}
use rpiosv.Stdlib.Shown.{IsText, shown, itoa-shown}
use rpiosv.Mmio.{ready}
use rpiosv.Uart.{transmit_full}
use rpiosv.Uart.Text.{Took, uart_putc-Took, Took-append, puts_loop-Took, ready-length}
use rpiosv.Stdout.{
  Output, Arg, number, string, putc, puts, put_int, put_number, put_string, directive, prntf_loop,
  prntf,
}
use rpiosv.Stdout.Pieces.{
  Piece, plain, percent, decimal, hexadecimal, chars, unknown, format, arguments, printed, AllFit,
}

-- The UART of `o` can take as many characters.
abbrev pub Room : List ℕ → Output → Type 0
Room s o = length s ≤ ready transmit_full o.uart.flags

putc-Took :
    (c : ℕ) (o : Output)
    → 0 < ready transmit_full o.uart.flags
    → (o' : Output) × (putc c o ≡ some o') × Took (c ∷ []) o.uart o'.uart
unfolding putc
putc-Took c o h =
    let (u, put, took) = uart_putc-Took c o.uart h in (record o { uart = u }, rw put, took)

puts-Took :
    (s : List ℕ) (text : Addr → ℕ) (p : Addr) (o : Output)
    → IsText p s text
    → Room s o
    → (o' : Output) × (puts text p o ≡ some o') × Took s o.uart o'.uart
unfolding puts
puts-Took s text p o is h =
    let (u, put, took) =
      puts_loop-Took (suc (length o.uart.flags)) s text p o.uart is
        (omega (arith, h, ready-length transmit_full o.uart.flags)) h in
    (record o { uart = u }, rw put, took)

put_int-Took :
    (n : ℤ) (base : ℕ) (o : Output)
    → InInt n
    → 2 ≤ base
    → base ≤ 36
    → Room (shown n base) o
    → (o' : Output) × (put_int n base o ≡ some o') × Took (shown n base) o.uart o'.uart
unfolding put_int
put_int-Took n base o int lo hi h =
    let (t, returns, is) = itoa-shown n base o.intbuf int lo hi in
    let (o', put, took) = puts-Took (shown n base) t 0 (record o { intbuf = t }) is h in
    (o', rw (returns, put), took)

-- A directive of the format, with the argument of its piece in front.
abbrev Directed : (Addr → ℕ) → (c : ℕ) → (args rest : List Arg) → List ℕ → Output → Type 0
Directed text c args rest s o =
    (o' : Output) × (directive text c args o ≡ some (rest, o')) × Took s o.uart o'.uart

module _ (text : Addr → ℕ) (rest : List Arg) (o : Output) where
  directive-percent : 0 < ready transmit_full o.uart.flags → Directed text 37 rest rest (37 ∷ []) o
  unfolding directive
  directive-percent h = let (o', put, took) = putc-Took 37 o h in (o', rw put, took)

  directive-decimal :
      (n : ℤ)
      → InInt n
      → Room (shown n 10) o
      → Directed text 100 (number n ∷ rest) rest (shown n 10) o
  unfolding directive put_number
  directive-decimal n int h =
      let (o', put, took) = put_int-Took n 10 o int (omega arith) (omega arith) h in
      (o', rw put, took)

  directive-hexadecimal :
      (n : ℤ)
      → InInt n
      → Room (shown n 16) o
      → Directed text 120 (number n ∷ rest) rest (shown n 16) o
  unfolding directive put_number
  directive-hexadecimal n int h =
      let (o', put, took) = put_int-Took n 16 o int (omega arith) (omega arith) h in
      (o', rw put, took)

  directive-chars :
      (p : Addr) (s : List ℕ)
      → IsText p s text
      → Room s o
      → Directed text 115 (string p ∷ rest) rest s o
  unfolding directive put_string
  directive-chars p s is h = let (o', put, took) = puts-Took s text p o is h in (o', rw put, took)

  directive-unknown :
      (c : ℕ) → c ≢ 37 → c ≢ 100 → c ≢ 120 → c ≢ 115 → Directed text c rest rest [] o
  unfolding directive
  directive-unknown c a b d e = (
    o,
    ground arith,
    record { wrote = sym (append-nil o.uart.written); left = omega arith; kept = refl },
  )

-- The loop has ended, and the UART took the characters of `s`.
abbrev Ended : ℕ → (Addr → ℕ) → Addr → List Arg → List ℕ → Output → Type 0
Ended fuel text fmt args s o =
    (o' : Output) × (prntf_loop fuel text fmt args o ≡ some o') × Took s o.uart o'.uart

pub Room-append :
    (s t : List ℕ) (o o' : Output) → Room (s ++ t) o → Took s o.uart o'.uart → Room t o'
Room-append s t o o' h took = omega (arith, took.left, length-append s t, h)

module _ (text : Addr → ℕ) (fuel fmt : Addr) where
  plain-Ended :
      (c : ℕ) (t : List ℕ) (args : List Arg) (o : Output)
      → text fmt ≡ c
      → c ≢ 0
      → c ≢ 37
      → Room (c ∷ t) o
      → ((o' : Output) → Room t o' → Ended fuel text (suc fmt) args t o')
      → Ended (suc fuel) text fmt args (c ∷ t) o
  unfolding prntf_loop
  plain-Ended c t args o at live other h rest =
      let (o', put, took) = putc-Took c o (omega (arith, h)) in
      let (o'', returns, later) = rest o' (Room-append (c ∷ []) t o o' h took) in
      let live' : (c == 0) ≡ false = ground arith in
      let other' : (c == 37) ≡ false = ground arith in
      (o'', rw (prntf_loop, at, live', other', put) returns, Took-append took later)

  directive-Ended :
      (c : ℕ) (s t : List ℕ) (args rest : List Arg) (o : Output)
      → text fmt ≡ 37
      → text (suc fmt) ≡ c
      → Room (s ++ t) o
      → Directed text c args rest s o
      → ((o' : Output) → Room t o' → Ended fuel text (suc (suc fmt)) rest t o')
      → Ended (suc fuel) text fmt args (s ++ t) o
  unfolding prntf_loop
  directive-Ended c s t args rest o at next h (o', directed, took) go =
      let (o'', returns, later) = go o' (Room-append s t o o' h took) in
      (o'', rw (prntf_loop, at, next, directed) returns, Took-append took later)

pub Room-left : (s t : List ℕ) (o : Output) → Room (s ++ t) o → Room s o
Room-left s t o h = omega (arith, length-append s t, h)

prntf_loop-Ended :
    (fuel : ℕ) (ps : List Piece) (text : Addr → ℕ) (fmt : Addr) (o : Output)
    → IsText fmt (format ps) text
    → AllFit text ps
    → length ps < fuel
    → Room (printed ps) o
    → Ended fuel text fmt (arguments ps) (printed ps) o
unfolding format arguments printed
prntf_loop-Ended zero ps text fmt o is fit f h = absurd (omega arith)
prntf_loop-Ended (suc fuel) [] text fmt o is fit f h = (
  o,
  unfold prntf_loop in rw (prntf_loop, is),
  record { wrote = sym (append-nil o.uart.written); left = omega arith; kept = refl },
)
prntf_loop-Ended (suc fuel) (plain c ∷ ps) text fmt o is fit f h =
    plain-Ended text fuel fmt c (printed ps) (arguments ps) o is.0 fit.0.0 fit.0.1 h
      (λ o' h'. prntf_loop-Ended fuel ps text (suc fmt) o' is.2 fit.1 (omega arith) h')
prntf_loop-Ended (suc fuel) (percent ∷ ps) text fmt o is fit f h =
    directive-Ended text fuel fmt 37 (37 ∷ []) (printed ps) (arguments ps) (arguments ps) o is.0
      is.2.0 h (directive-percent text (arguments ps) o (omega (arith, h)))
      (λ o' h'. prntf_loop-Ended fuel ps text (suc (suc fmt)) o' is.2.2 fit.1 (omega arith) h')
prntf_loop-Ended (suc fuel) (decimal n ∷ ps) text fmt o is fit f h =
    directive-Ended text fuel fmt 100 (shown n 10) (printed ps) (number n ∷ arguments ps)
      (arguments ps) o is.0 is.2.0 h
      (directive-decimal text (arguments ps) o n fit.0 (Room-left (shown n 10) (printed ps) o h))
      (λ o' h'. prntf_loop-Ended fuel ps text (suc (suc fmt)) o' is.2.2 fit.1 (omega arith) h')
prntf_loop-Ended (suc fuel) (hexadecimal n ∷ ps) text fmt o is fit f h =
    directive-Ended text fuel fmt 120 (shown n 16) (printed ps) (number n ∷ arguments ps)
      (arguments ps) o is.0 is.2.0 h
      (directive-hexadecimal text (arguments ps) o n fit.0
        (Room-left (shown n 16) (printed ps) o h))
      (λ o' h'. prntf_loop-Ended fuel ps text (suc (suc fmt)) o' is.2.2 fit.1 (omega arith) h')
prntf_loop-Ended (suc fuel) (chars p s ∷ ps) text fmt o is fit f h =
    directive-Ended text fuel fmt 115 s (printed ps) (string p ∷ arguments ps) (arguments ps) o is.0
      is.2.0 h (directive-chars text (arguments ps) o p s fit.0 (Room-left s (printed ps) o h))
      (λ o' h'. prntf_loop-Ended fuel ps text (suc (suc fmt)) o' is.2.2 fit.1 (omega arith) h')
prntf_loop-Ended (suc fuel) (unknown c ∷ ps) text fmt o is fit f h =
    directive-Ended text fuel fmt c [] (printed ps) (arguments ps) (arguments ps) o is.0 is.2.0 h
      (directive-unknown text (arguments ps) o c fit.0.1 fit.0.2 fit.0.3 fit.0.4)
      (λ o' h'. prntf_loop-Ended fuel ps text (suc (suc fmt)) o' is.2.2 fit.1 (omega arith) h')

-- For a format made of pieces, with their arguments, `prntf` returns, writes what the pieces say to
-- the UART, in order, and leaves the interrupt level as it was. The reads of the flags must find the
-- transmitter free once for each character.
pub prntf-printed :
    (fuel : ℕ) (ps : List Piece) (text : Addr → ℕ) (fmt : Addr) (irq : Level) (o : Output)
    → IsText fmt (format ps) text
    → AllFit text ps
    → length ps < fuel
    → Room (printed ps) o
    → (o' : Output) × (prntf fuel text fmt (arguments ps) (irq, o) ≡ some (irq, o'))
      × (o'.uart.written ≡ o.uart.written ++ printed ps)
unfolding prntf
prntf-printed fuel ps text fmt irq o is fit f h =
    let (o', returns, took) = prntf_loop-Ended fuel ps text fmt o is fit f h in
    let back = set_interrupt_level-restore disabled irq in (o', rw (returns, back), took.wrote)

-- A format that ends in a lone percent sign is read past its terminator: what stands behind that,
-- here the pieces `ps`, is printed as a format, with the arguments.
pub prntf-overrun :
    (fuel : ℕ) (ps : List Piece) (text : Addr → ℕ) (fmt : Addr) (irq : Level) (o : Output)
    → text fmt ≡ 37
    → text (suc fmt) ≡ 0
    → IsText (suc (suc fmt)) (format ps) text
    → AllFit text ps
    → suc (length ps) < fuel
    → Room (printed ps) o
    → (o' : Output) × (prntf fuel text fmt (arguments ps) (irq, o) ≡ some (irq, o'))
      × (o'.uart.written ≡ o.uart.written ++ printed ps)
unfolding prntf
prntf-overrun zero ps text fmt irq o at end is fit f h = absurd (omega arith)
prntf-overrun (suc fuel) ps text fmt irq o at end is fit f h =
    let nothing =
      directive-unknown text (arguments ps) o 0 (omega arith) (omega arith) (omega arith)
        (omega arith) in
    let (o', returns, took) =
      directive-Ended text fuel fmt 0 [] (printed ps) (arguments ps) (arguments ps) o at end h
        nothing
        (λ o' h'. prntf_loop-Ended fuel ps text (suc (suc fmt)) o' is fit (omega arith) h') in
    let back = set_interrupt_level-restore disabled irq in (o', rw (returns, back), took.wrote)
