-- ===== src/Gpio.antt =====
-- The LEDs of src/gpio.c: two flags, and writes to the registers that set and clear pins.
pub mod Lights
mod Examples
use rpiosv.Base.{ℕ, ◌+◌, ◌^◌, Bool, true, false, not, ◌==◌, if◌then◌else◌, List, [], ◌∷◌}
use rpiosv.Mmio.{Event, write, wait, Trace, mmio_write}

abbrev pub gpfsel3 : ℕ
gpfsel3 = 0x3F20000C

abbrev pub gpfsel4 : ℕ
gpfsel4 = 0x3F200010

abbrev pub gpset1 : ℕ
gpset1 = 0x3F200020

abbrev pub gpclr1 : ℕ
gpclr1 = 0x3F20002C

-- The two static variables, and what was written.
pub record Leds : Type 0 where
  pub led_state : ℕ
  pub led_state_2 : ℕ
  pub trace : Trace

-- `!x`
abbrev pub lnot : ℕ → ℕ
lnot x = if x == 0 then 1 else 0

-- The write for a LED, by its flag.
unfoldable pub drive : (state led_num : ℕ) → Trace → Trace
unfolding mmio_write
drive state led_num t =
    if state == 0 then mmio_write gpclr1 led_num t else mmio_write gpset1 led_num t

unfoldable pub gpio_invert_led : Leds → Leds
unfolding drive
gpio_invert_led l = record l {
  trace = drive l.led_state (2 ^ 15) l.trace;
  led_state = lnot l.led_state;
}

unfoldable pub gpio_invert_led_2 : Leds → Leds
unfolding drive
gpio_invert_led_2 l = record l {
  trace = drive l.led_state_2 (2 ^ 3) l.trace;
  led_state_2 = lnot l.led_state_2;
}

unfoldable pub gpio_led_init : Leds → Leds
unfolding gpio_invert_led_2 mmio_write
gpio_led_init l =
    gpio_invert_led_2
      (record l { trace = mmio_write gpfsel3 (2 ^ 15) (mmio_write gpfsel4 (2 ^ 21) l.trace) })
