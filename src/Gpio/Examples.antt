-- ===== src/Gpio/Examples.antt =====
-- The theorem on src/gpio.c at three calls.
use rpiosv.Base.{◌≡◌, refl, false, true, [], ◌∷◌}
use rpiosv.Gpio.{Leds, gpio_led_init}
use rpiosv.Gpio.Lights.{invert_led, invert_led_2, replay, run, turn, run-turn}

abbrev start : Leds
start = record { led_state = 1; led_state_2 = 1; trace = [] }

run-turn_example :
    replay
      (run (invert_led ∷ invert_led_2 ∷ invert_led ∷ []) (gpio_led_init start)).trace
      (false, false)
    ≡ turn (invert_led ∷ invert_led_2 ∷ invert_led ∷ []) (false, true)
unfolding replay
run-turn_example =
    run-turn (false, false) (invert_led ∷ invert_led_2 ∷ invert_led ∷ []) start refl refl refl
