-- ===== src/Main/Tasks.antt =====
-- The processes of src/kernel.c: the main process, and a round of each of the two that it makes. A
-- format is a text literal, as memory from 0 on.
use rpiosv.Base.{ℕ, Option, some, List, [], ◌∷◌, ◌++◌, ◌>>=◌, if◌then◌else◌, Addr, null}
use rpiosv.Base.Int.{ℤ, pos, succ_ℤ}
use rpiosv.Interrupts.Level.{Level, interrupts_enabled}
use rpiosv.Mailbox.{MessageTag, Words}
use rpiosv.Stdout.{Arg, number, prntf}
use rpiosv.Framebuffer.{codes, literal, crlf}
use rpiosv.Gpio.{gpio_invert_led, gpio_invert_led_2}
use rpiosv.Kernel.{set_irq}
use rpiosv.Clock.{proc_sleep_ms}
use rpiosv.Process.{process_fork}
use rpiosv.Main.{Board, get_system_config}

-- `prntf` of a format of fewer characters than `fuel`.
unfoldable pub print : (fuel : ℕ) → List ℕ → List Arg → Board → Option Board
print fuel fmt args b = do
  (irq, out) ← prntf fuel (literal fmt) 0 args (b.kernel.machine.irq, b.out)
  some (record b { kernel = set_irq irq b.kernel; out = out })

-- The formats.
abbrev pub hello_1 : List ℕ
hello_1 = codes "hello from 1 %d" ++ crlf

abbrev pub hello_2 : List ℕ
hello_2 = codes "hello from 2 %d" ++ crlf

-- A round of the loop of `proc_1`, up to the switch in `proc_sleep_ms`; `i` is unbounded.
unfoldable pub proc_1 : ℤ → Board → Option (ℤ × Board)
unfolding print gpio_invert_led
proc_1 i b = do
  b1 ← print 32 hello_1 (number i ∷ []) b
  some (
    succ_ℤ i,
    record b1 { leds = gpio_invert_led b1.leds; kernel = proc_sleep_ms (pos 750) b1.kernel },
  )

-- The same for `proc_2`.
unfoldable pub proc_2 : ℤ → Board → Option (ℤ × Board)
unfolding print gpio_invert_led_2
proc_2 i b = do
  b1 ← print 32 hello_2 (number i ∷ []) b
  some (
    succ_ℤ i,
    record b1 { leds = gpio_invert_led_2 b1.leds; kernel = proc_sleep_ms (pos 1500) b1.kernel },
  )

-- INTERRUPTS_ENABLED as an `int`.
abbrev pub level_number : Level → ℤ
level_number irq = if irq then pos 1 else pos 0

module _ (device : ℕ → Words → Words) (cleanup p1 p2 : Addr) where
  -- The questions, with the tags that stand on the stack.
  configured : (tags : List MessageTag) → Board → Option Board
  configured tags b = do
    a ← get_system_config device (record {
      system = record { machine = b.kernel.machine; words = b.words; port = b.port };
      out = b.out;
      tags = tags;
    })
    some (record b {
      kernel = record b.kernel { machine = a.system.machine };
      words = a.system.words;
      port = a.system.port;
      out = a.out;
    })

  pub main_proc : (tags : List MessageTag) (arg : ℤ) → Board → Option Board
  unfolding print configured
  main_proc tags arg b = do
    b1 ← print 64 (codes "Hello, kernel World!" ++ crlf) [] b
    b2 ← configured tags b1
    b3 ← print 64 (codes "Running main proc with arg %d" ++ crlf) (number arg ∷ []) b2
    b4 ←
        print 64 (codes "Interrupts: %d" ++ crlf)
          (number (level_number (interrupts_enabled b3.kernel.machine.irq)) ∷ []) b3
    (q1, k1) ← process_fork cleanup p1 null b4.kernel
    (q2, k2) ← process_fork cleanup p2 null k1
    some (record b4 { kernel = k2 })
