-- ===== src/Gpio/Lights.antt =====
-- The LEDs as two switches: every inversion turns one over.
use rpiosv.Base.{
  ◌^◌, ◌≡◌, ◌∙◌, refl, ap, Bool, true, false, not, ◌==◌, if◌then◌else◌, List, [], ◌∷◌, ◌++◌, arith,
  Bool-cases, inl, inr,
}
use rpiosv.Mmio.{Event, write, wait, Trace, mmio_write}
use rpiosv.Gpio.{
  Leds, gpfsel3, gpfsel4, gpset1, gpclr1, gpio_invert_led, gpio_invert_led_2, gpio_led_init,
}

-- Whether the green LED and the red one are on.
abbrev pub Lights : Type 0
Lights = Bool × Bool

-- What a write does to the pins of the second bank.
unfoldable pub pins : Event → Lights → Lights
pins (write reg value) (green, red) =
    if reg == gpset1
    then if value == 2 ^ 15
      then (true, red)
      else if value == 2 ^ 3
      then (green, true)
      else (green, red)
    else if reg == gpclr1
    then if value == 2 ^ 15
      then (false, red)
      else if value == 2 ^ 3
      then (green, false)
      else (green, red)
    else (green, red)
pins (wait n) lights = lights

-- The LEDs after a trace.
unfoldable pub replay : Trace → Lights → Lights
replay [] lights = lights
replay (e ∷ t) lights = replay t (pins e lights)

replay-append :
    (t : Trace) (e : Event) (l : Lights) → replay (t ++ (e ∷ [])) l ≡ pins e (replay t l)
unfolding replay
replay-append [] e l = refl
replay-append (x ∷ t) e l = replay-append t e (pins x l)

-- The calls.
pub data Call : Type 0 where
  invert_led invert_led_2 : Call

unfoldable pub run : List Call → Leds → Leds
unfolding gpio_invert_led gpio_invert_led_2
run [] l = l
run (invert_led ∷ calls) l = run calls (gpio_invert_led l)
run (invert_led_2 ∷ calls) l = run calls (gpio_invert_led_2 l)

-- The same calls on two switches.
unfoldable pub turn : List Call → Lights → Lights
turn [] lights = lights
turn (invert_led ∷ calls) (green, red) = turn calls (not green, red)
turn (invert_led_2 ∷ calls) (green, red) = turn calls (green, not red)

-- A flag is 0 exactly while its LED is on.
record Shows (start : Lights) (l : Leds) (lights : Lights) : Type 0 where
  seen : replay l.trace start ≡ lights
  green : (l.led_state == 0) ≡ lights.0
  red : (l.led_state_2 == 0) ≡ lights.1

gpio_invert_led-Shows :
    (start : Lights) (l : Leds) (lights : Lights)
    → Shows start l lights
    → Shows start (gpio_invert_led l) (not lights.0, lights.1)
unfolding gpio_invert_led pins mmio_write
gpio_invert_led-Shows start l (green, red) s = elim (Bool-cases (l.led_state == 0)) [
  | inl on ↦ record {
    seen =
        rw on (
          replay-append l.trace (write gpclr1 (2 ^ 15)) start
          ∙ rw s.seen (ground (arith, s.green)));
    green = ground (arith, s.green);
    red = s.red;
  }
  | inr off ↦ record {
    seen =
        rw off (
          replay-append l.trace (write gpset1 (2 ^ 15)) start
          ∙ rw s.seen (ground (arith, s.green)));
    green = ground (arith, s.green);
    red = s.red;
  }
]

gpio_invert_led_2-Shows :
    (start : Lights) (l : Leds) (lights : Lights)
    → Shows start l lights
    → Shows start (gpio_invert_led_2 l) (lights.0, not lights.1)
unfolding gpio_invert_led_2 pins mmio_write
gpio_invert_led_2-Shows start l (green, red) s = elim (Bool-cases (l.led_state_2 == 0)) [
  | inl on ↦ record {
    seen =
        rw on
          (replay-append l.trace (write gpclr1 (2 ^ 3)) start ∙ rw s.seen (ground (arith, s.red)));
    green = s.green;
    red = ground (arith, s.red);
  }
  | inr off ↦ record {
    seen =
        rw off
          (replay-append l.trace (write gpset1 (2 ^ 3)) start ∙ rw s.seen (ground (arith, s.red)));
    green = s.green;
    red = ground (arith, s.red);
  }
]

run-Shows :
    (start : Lights) (calls : List Call) (l : Leds) (lights : Lights)
    → Shows start l lights
    → Shows start (run calls l) (turn calls lights)
unfolding run turn
run-Shows start [] l lights s = s
run-Shows start (invert_led ∷ calls) l (green, red) s =
    run-Shows start calls (gpio_invert_led l) (not green, red)
      (gpio_invert_led-Shows start l (green, red) s)
run-Shows start (invert_led_2 ∷ calls) l (green, red) s =
    run-Shows start calls (gpio_invert_led_2 l) (green, not red)
      (gpio_invert_led_2-Shows start l (green, red) s)

-- The pins are selected, and both LEDs are as before.
selected-Shows :
    (start : Lights) (l : Leds)
    → Shows start l (false, false)
    → Shows start
        (record l { trace = mmio_write gpfsel3 (2 ^ 15) (mmio_write gpfsel4 (2 ^ 21) l.trace) })
        (false, false)
unfolding mmio_write pins
selected-Shows start l s = record {
  seen =
      replay-append (l.trace ++ (write gpfsel4 (2 ^ 21) ∷ [])) (write gpfsel3 (2 ^ 15)) start
      ∙ ap (pins (write gpfsel3 (2 ^ 15))) (
          replay-append l.trace (write gpfsel4 (2 ^ 21)) start
          ∙ ap (pins (write gpfsel4 (2 ^ 21))) s.seen);
  green = s.green;
  red = s.red;
}

-- From the initial values of the two flags and with both LEDs off, `gpio_led_init` turns the red
-- LED on, and after any calls of the two functions, in any order, the writes so far have left the
-- LEDs as two switches that each call turns over.
pub run-turn :
    (start : Lights) (calls : List Call) (l : Leds)
    → l.led_state ≡ 1
    → l.led_state_2 ≡ 1
    → replay l.trace start ≡ (false, false)
    → replay (run calls (gpio_led_init l)).trace start ≡ turn calls (false, true)
unfolding gpio_led_init
run-turn start calls l one one' off =
    let s : Shows start l (false, false) = record {
      seen = off;
      green = ground arith;
      red = ground arith;
    } in
    let ready =
      gpio_invert_led_2-Shows start
        (record l { trace = mmio_write gpfsel3 (2 ^ 15) (mmio_write gpfsel4 (2 ^ 21) l.trace) })
        (false, false) (selected-Shows start l s) in
    (run-Shows start calls (gpio_led_init l) (false, true) ready).seen
