-- ===== src/Buttons/Examples.antt =====
-- The theorems on the buttons at concrete inputs.
use embedded_basecamp.Prelude.{◌≡◌, refl, some, [], ◌∷◌, ◌++◌, arith, replicate, ◌⊎◌, inl}
use embedded_basecamp.Prelude.Int.{pos, ◌≤ℤ◌}
use embedded_basecamp.Prelude.Partial.{◌>>=◌}
use embedded_basecamp.Buttons.{
  exit_app, reset_counter, unknown, Button, Panel, initial_app, call_handler, main_loop, attached,
  update_first, attach_long_click_listener, attach_short_click_listener_control_button,
  attach_short_click_listener_counter_down, attach_short_click_listener_counter_up,
}
use embedded_basecamp.Buttons.Clicks.{idle, button_events, handler_of, button_events-click}
use embedded_basecamp.Buttons.Counter.{Drawn, main_loop-Drawn}

abbrev control : Button
control = record {
  pin_id = 16;
  press_count = 0;
  button_state = unknown;
  short_click_handler = some reset_counter;
  long_click_handler = some exit_app;
}

button_events-click_example :
    button_events (replicate 7000 (pos 0) ++ pos 1 ∷ []) control initial_app
    ≡ (call_handler (handler_of 7000 control) initial_app >>= λ a'. some (idle control a'))
button_events-click_example = button_events-click 6999 control initial_app refl (omega arith)

main_loop-Drawn_example :
    (p' : Panel) × (main_loop ((pos 0, pos 1, pos 1) ∷ (pos 1, pos 1, pos 1) ∷ []) attached
      ≡ some p')
    × (pos 0 ≤ℤ p'.app.counter_value)
    × ((p' ≡ attached) ⊎ Drawn p')
unfolding attached update_first attach_long_click_listener
    attach_short_click_listener_control_button attach_short_click_listener_counter_down
    attach_short_click_listener_counter_up
main_loop-Drawn_example =
    main_loop-Drawn ((pos 0, pos 1, pos 1) ∷ (pos 1, pos 1, pos 1) ∷ []) attached refl
      (record { low = omega arith; high = omega arith; shown = inl refl })
      (omega arith, (omega arith, (omega arith, tt)))
