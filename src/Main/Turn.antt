-- ===== src/Main/Turn.antt =====
-- A round of a process that prints, inverts its LED and sleeps.
use rpiosv.Base.{
  ℕ, ◌+◌, ◌<◌, ◌≡◌, ◌≢◌, refl, ap, Bool, true, some, List, [], ◌∷◌, ◌++◌, Addr, arith, update,
  length,
}
use rpiosv.Base.Int.{ℤ, pos, succ_ℤ}
use rpiosv.Memory.{u32}
use rpiosv.Queue.Family.{Contents}
use rpiosv.Scheduler.Turns.{Running, turn, later}
use rpiosv.Clock.{sleep_ticks, proc_sleep_ms}
use rpiosv.Clock.Sleep.{slept, proc_sleep_ms-Running}
use rpiosv.Stdlib.Itoa.{InInt}
use rpiosv.Stdlib.Shown.{IsText, shown}
use rpiosv.Stdout.{Output, number}
use rpiosv.Stdout.Pieces.{Piece, plain, decimal, format, arguments, printed, AllFit}
use rpiosv.Stdout.Printing.{prntf-printed, Room}
use rpiosv.Framebuffer.{codes, literal, crlf}
use rpiosv.Gpio.{Leds, gpio_invert_led, gpio_invert_led_2}
use rpiosv.Main.{Board}
use rpiosv.Main.Tasks.{proc_1, proc_2, print, hello_1, hello_2}

-- Characters that stand for themselves, as pieces.
plains : List ℕ → List Piece
plains [] = []
plains (c ∷ s) = plain c ∷ plains s

-- The line that a process prints.
abbrev pub line : List ℕ → ℤ → List ℕ
line label i = label ++ shown i 10 ++ crlf

-- `print` changes nothing but the output.
print-printed :
    (fuel : ℕ) (ps : List Piece) (fmt : List ℕ) (b : Board)
    → IsText 0 (format ps) (literal fmt)
    → AllFit (literal fmt) ps
    → length ps < fuel
    → Room (printed ps) b.out
    → (o : Output) × (print fuel fmt (arguments ps) b ≡ some (record b { out = o }))
      × (o.uart.written ≡ b.out.uart.written ++ printed ps)
unfolding print
print-printed fuel ps fmt b is fit f h =
    let (o, returns, wrote) =
      prntf-printed fuel ps (literal fmt) 0 b.kernel.machine.irq b.out is fit f h in
    (o, rw (print, returns) refl, wrote)

-- The number in front of the end of the line.
number_line : ℤ → List Piece
number_line i = decimal i ∷ plains crlf

line_room : (label : List ℕ) (i : ℤ) → printed (plains label ++ number_line i) ≡ line label i
unfolding plains printed number_line
line_room [] i = refl
line_room (c ∷ s) i = ap (λ t. c ∷ t) (line_room s i)

proc_1-print :
    (i : ℤ) (b b1 : Board)
    → print 32 hello_1 (number i ∷ []) b ≡ some b1
    → proc_1 i b
      ≡ some (
        succ_ℤ i,
        record b1 { leds = gpio_invert_led b1.leds; kernel = proc_sleep_ms (pos 750) b1.kernel },
      )
unfolding proc_1
proc_1-print i b b1 e = rw (proc_1, e) refl

proc_2-print :
    (i : ℤ) (b b1 : Board)
    → print 32 hello_2 (number i ∷ []) b ≡ some b1
    → proc_2 i b
      ≡ some (
        succ_ℤ i,
        record b1 { leds = gpio_invert_led_2 b1.leds; kernel = proc_sleep_ms (pos 1500) b1.kernel },
      )
unfolding proc_2
proc_2-print i b b1 e = rw (proc_2, e) refl

-- What a round from `b`, with the queues `c`, leaves: the line, and the next process in turn.
pub record Turned (live : Addr → Bool) (c : Contents) (b : Board) (i : ℤ) (label : List ℕ)
    (ticks : ℕ) (b' : Board) : Type 0 where
  pub wrote : b'.out.uart.written ≡ b.out.uart.written ++ line label i
  pub runs :
      Running live b'.kernel
        (update (slept b.kernel c) b.kernel.run_queue (later (c b.kernel.run_queue)))
  pub next : b'.kernel.current_context_pcb ≡ turn b.kernel.idle_process (c b.kernel.run_queue)
  pub due : b'.kernel.awaken_tick b.kernel.current_context_pcb ≡ u32 (ticks + b.kernel.ticks)

module _ {live : Addr → Bool} {c : Contents} (b : Board) (run : Running live b.kernel c)
    (on : live b.kernel.tick_queue ≡ true) (own : b.kernel.tick_queue ≢ b.kernel.run_queue)
    (busy : b.kernel.current_context_pcb ≢ b.kernel.idle_process) (i : ℤ) (int : InInt i) where
  slept-Turned :
      (label : List ℕ) (ms : ℤ) (l : Leds) (o : Output)
      → o.uart.written ≡ b.out.uart.written ++ line label i
      → Turned live c b i label
          (sleep_ticks ms)
          (record b { out = o; leds = l; kernel = proc_sleep_ms ms b.kernel })
  slept-Turned label ms l o wrote =
      let (runs, next, due, _) = proc_sleep_ms-Running run on own busy ms in
      record { wrote = wrote; runs = runs; next = next; due = due }

  -- A round of `proc_1`, by a process other than the idle one, with an `int` as its number, and room
  -- for the line: it prints the line, inverts its LED, and is last on the tick queue, due after 15
  -- ticks, while the next process in turn runs.
  pub proc_1-Turned :
      Room (line (codes "hello from 1 ") i) b.out
      → (b' : Board) × (proc_1 i b ≡ some (succ_ℤ i, b'))
        × (b'.leds ≡ gpio_invert_led b.leds)
        × Turned live c b i (codes "hello from 1 ") 15 b'
  unfolding plains number_line format arguments sleep_ticks
  proc_1-Turned room =
      let label = codes "hello from 1 " in
      let same = line_room label i in
      let (o, returns, wrote) =
        print-printed 32 (plains label ++ number_line i) hello_1 b (ground arith)
          (ground (arith, int)) (omega arith) (rw same room) in
      (
        record b {
          out = o;
          leds = gpio_invert_led b.leds;
          kernel = proc_sleep_ms (pos 750) b.kernel;
        },
        proc_1-print i b (record b { out = o }) returns,
        refl,
        slept-Turned label (pos 750) (gpio_invert_led b.leds) o (rw same at wrote),
      )

  -- A round of `proc_2`, by a process other than the idle one, with an `int` as its number, and room
  -- for the line: it prints the line, inverts the other LED, and is last on the tick queue, due after 30
  -- ticks, while the next process in turn runs.
  pub proc_2-Turned :
      Room (line (codes "hello from 2 ") i) b.out
      → (b' : Board) × (proc_2 i b ≡ some (succ_ℤ i, b'))
        × (b'.leds ≡ gpio_invert_led_2 b.leds)
        × Turned live c b i (codes "hello from 2 ") 30 b'
  unfolding plains number_line format arguments sleep_ticks
  proc_2-Turned room =
      let label = codes "hello from 2 " in
      let same = line_room label i in
      let (o, returns, wrote) =
        print-printed 32 (plains label ++ number_line i) hello_2 b (ground arith)
          (ground (arith, int)) (omega arith) (rw same room) in
      (
        record b {
          out = o;
          leds = gpio_invert_led_2 b.leds;
          kernel = proc_sleep_ms (pos 1500) b.kernel;
        },
        proc_2-print i b (record b { out = o }) returns,
        refl,
        slept-Turned label (pos 1500) (gpio_invert_led_2 b.leds) o (rw same at wrote),
      )
