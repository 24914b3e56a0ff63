-- ===== src/Buttons.antt =====
-- The counter of task4: the buttons (buttons_module.c) and what their clicks do (main.c). A signed
-- overflow is a fault.
pub mod Clicks
pub mod Room
pub mod Counter
pub mod Screen
mod Examples
use embedded_basecamp.Prelude.{
  ℕ, ◌+◌, ◌-◌, ◌^◌, Bool, true, false, Option, none, some, List, [], ◌∷◌, ltb, ◌==◌, ◌&&◌,
  if◌then◌else◌,
}
use embedded_basecamp.Prelude.Int.{ℤ, pos, negsuc, ltb_ℤ, eqb_ℤ, increment, decrement}
use embedded_basecamp.Prelude.Partial.{◌>>=◌}

-- The functions that main.c attaches.
pub data Callback : Type 0 where
  push_counter_up : Callback
  push_counter_down : Callback
  reset_counter : Callback
  exit_app : Callback

-- kPressed = 0, kReleased = 1, None = -1
pub data ButtonState : Type 0 where
  pressed : ButtonState
  released : ButtonState
  unknown : ButtonState

-- long_press_count is never used. A press_count is never negative.
pub record Button : Type 0 where
  pub pin_id : ℕ
  pub press_count : ℕ
  pub button_state : ButtonState
  pub short_click_handler : Option Callback
  pub long_click_handler : Option Callback

pub record App : Type 0 where
  pub counter_value : ℤ
  pub running_app : Bool
  pub counter_rect_invalidated : Bool
  -- the values that draw_counter_value has drawn, the last one first
  pub drawn : List ℤ

pub record Panel : Type 0 where
  pub buttons : List Button
  pub app : App

abbrev pub counter_up_pin : ℕ
counter_up_pin = 21

abbrev pub counter_down_pin : ℕ
counter_down_pin = 20

abbrev pub control_button_pin : ℕ
control_button_pin = 16

abbrev button_at : ℕ → Button
button_at pin = record {
  pin_id = pin;
  press_count = 0;
  button_state = unknown;
  short_click_handler = none;
  long_click_handler = none;
}

abbrev pub initial_app : App
initial_app = record {
  counter_value = pos 0;
  running_app = true;
  counter_rect_invalidated = true;
  drawn = [];
}

abbrev pub initial_panel : Panel
initial_panel = record {
  buttons =
      button_at counter_up_pin ∷ button_at counter_down_pin ∷ button_at control_button_pin ∷ [];
  app = initial_app;
}

-- update_counter_rect
abbrev update_counter_rect : App → App
update_counter_rect a = record a { counter_rect_invalidated = true }

unfoldable pub call : Callback → App → Option App
call push_counter_up a = do
  n ← increment a.counter_value
  some (update_counter_rect (record a { counter_value = n }))
call push_counter_down a = do
  n ← decrement a.counter_value
  some (update_counter_rect (if ltb_ℤ n (pos 0) then a else record a { counter_value = n }))
call reset_counter a = some (update_counter_rect (record a { counter_value = pos 0 }))
call exit_app a = some (record a { running_app = false })

-- A handler that is NULL is not called.
unfoldable pub call_handler : Option Callback → App → Option App
call_handler none a = some a
call_handler (some c) a = call c a

abbrev pub short_click_threshold : ℕ
short_click_threshold = 1000

abbrev pub long_click_threshold : ℕ
long_click_threshold = 6000

-- What a release after `count` samples of a pressed button calls.
unfoldable pub click : (count : ℕ) → Button → App → Option App
click count b a =
    if ltb 0 count && ltb count short_click_threshold
    then call_handler b.short_click_handler a
    else if ltb long_click_threshold count
    then call_handler b.long_click_handler a
    else some a

abbrev pub is_pressed : ButtonState → Bool
is_pressed pressed = true
is_pressed _ = false

-- The body of the loop of process_pin_event at the button with the pin: `event` is kPressed,
-- kReleased or another number.
unfoldable pub button_event : (event : ℤ) → Button → App → Option (Button × App)
button_event event b a =
    if eqb_ℤ event (pos 0)
    then (if b.press_count == 2 ^ 31 - 1
        then none
        else some (record b { press_count = b.press_count + 1; button_state = pressed }, a))
    else if eqb_ℤ event (pos 1)
    then (do
      a' ← if is_pressed b.button_state then click b.press_count b a else some a
      some (record b { button_state = released; press_count = 0 }, a'))
    else some (b, a)

unfoldable pub pin_event_in :
    (event : ℤ) → (pin : ℕ) → List Button → App → Option (List Button × App)
pin_event_in event pin [] a = some ([], a)
pin_event_in event pin (b ∷ bs) a = do
  (b', a') ← if b.pin_id == pin then button_event event b a else some (b, a)
  (bs', a'') ← pin_event_in event pin bs a'
  some (b' ∷ bs', a'')

unfoldable pub process_pin_event : (event : ℤ) → (pin : ℕ) → Panel → Option Panel
process_pin_event event pin p = do
  (bs, a) ← pin_event_in event pin p.buttons p.app
  some (record { buttons = bs; app = a })

-- `up`, `down` and `control` are what gpio_get_value returns on the three pins.
unfoldable pub process_buttons_module : (up down control : ℤ) → Panel → Option Panel
process_buttons_module up down control p = do
  p1 ← process_pin_event up counter_up_pin p
  p2 ← process_pin_event down counter_down_pin p1
  process_pin_event control control_button_pin p2

-- find_by_id, and a write to the button that is found.
unfoldable pub update_first : ℕ → (Button → Button) → List Button → List Button
update_first pin f [] = []
update_first pin f (b ∷ bs) = if b.pin_id == pin then f b ∷ bs else b ∷ update_first pin f bs

abbrev set_short : Callback → Button → Button
set_short c b = record b { short_click_handler = some c }

abbrev set_long : Callback → Button → Button
set_long c b = record b { long_click_handler = some c }

unfoldable pub attach_short_click_listener_counter_up : Callback → Panel → Panel
attach_short_click_listener_counter_up c p = record p {
  buttons = update_first counter_up_pin (set_short c) p.buttons;
}

unfoldable pub attach_short_click_listener_counter_down : Callback → Panel → Panel
attach_short_click_listener_counter_down c p = record p {
  buttons = update_first counter_down_pin (set_short c) p.buttons;
}

unfoldable pub attach_short_click_listener_control_button : Callback → Panel → Panel
attach_short_click_listener_control_button c p = record p {
  buttons = update_first control_button_pin (set_short c) p.buttons;
}

unfoldable pub attach_long_click_listener : Callback → Panel → Panel
attach_long_click_listener c p = record p {
  buttons = update_first control_button_pin (set_long c) p.buttons;
}

unfoldable pub draw_counter_value : Panel → Panel
draw_counter_value p =
    if p.app.counter_rect_invalidated
    then record p {
      app = record p.app {
        counter_rect_invalidated = false;
        drawn = p.app.counter_value ∷ p.app.drawn;
      };
    }
    else p

-- main up to its loop: the part that is about the buttons.
unfoldable pub attached : Panel
attached = attach_long_click_listener exit_app (
    attach_short_click_listener_control_button reset_counter (
      attach_short_click_listener_counter_down push_counter_down
        (attach_short_click_listener_counter_up push_counter_up initial_panel)))

-- The loop of main over the samples of the three pins: it ends when they do, or when the
-- application has been left.
unfoldable pub main_loop : List (ℤ × ℤ × ℤ) → Panel → Option Panel
main_loop [] p = some p
main_loop ((up, down, control) ∷ samples) p =
    let rest = (do
      p' ← process_buttons_module up down control p
      main_loop samples (draw_counter_value p')) in
    if p.app.running_app then rest else some p
