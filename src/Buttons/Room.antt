-- ===== src/Buttons/Room.antt =====
-- The room that the counter and the press counts have, through the samples.
use embedded_basecamp.Prelude.{
  ℕ, zero, suc, ◌+◌, ◌-◌, ◌^◌, ◌<◌, ◌≤◌, ◌≡◌, refl, Bool, true, false, Option, none, some, List, [],
  ◌∷◌, arith, length, ltb, ◌==◌, ◌&&◌, if◌then◌else◌, Bool-cases, ◌⊎◌, inl, inr, ap, ◌∙◌,
}
use embedded_basecamp.Prelude.Int.{
  ℤ, pos, negsuc, ◌≤ℤ◌, pos_part, ltb_ℤ, eqb_ℤ, increment, decrement, decrement_pos,
}
use embedded_basecamp.Buttons.{
  Callback, push_counter_up, push_counter_down, reset_counter, exit_app, pressed, released, Button,
  App, Panel, is_pressed, call, call_handler, click, button_event, counter_up_pin, counter_down_pin,
  control_button_pin, pin_event_in, process_pin_event, process_buttons_module,
}

-- The counter is not negative, with room for c more steps up, and what was drawn last is the counter
-- unless the drawing is invalid.
pub record Room (c : ℕ) (a : App) : Type 0 where
  pub low : pos 0 ≤ℤ a.counter_value
  pub high : pos_part a.counter_value + c < 2 ^ 31
  pub shown :
      (a.counter_rect_invalidated ≡ true) ⊎ ((ns : List ℤ) × (a.drawn ≡ a.counter_value ∷ ns))

-- Every press count has room for k more samples.
abbrev pub Presses : ℕ → List Button → Type 0
Presses k [] = Unit
Presses k (b ∷ bs) = (b.press_count + k < 2 ^ 31) × Presses k bs

increment_low :
    (z : ℤ) (c : ℕ)
    → pos 0 ≤ℤ z
    → pos_part z + suc c < 2 ^ 31
    → (n : ℤ) × (increment z ≡ some n) × ((pos 0 ≤ℤ n) × (pos_part n + c < 2 ^ 31))
unfolding increment
increment_low (pos n) c l h =
    let more : (n + 0 == 2 ^ 31 - 1 + 0) ≡ false = ground arith in
    (pos (suc n), rw more, (omega arith, omega arith))
increment_low (negsuc n) c l h = absurd (omega arith)

decrement_low :
    (z : ℤ)
    → pos 0 ≤ℤ z
    → (n : ℤ) × (decrement z ≡ some n)
      × ((ltb_ℤ n (pos 0) ≡ true)
          ⊎ ((ltb_ℤ n (pos 0) ≡ false) × (pos 0 ≤ℤ n) × (pos_part n ≤ pos_part z)))
unfolding decrement
decrement_low (pos zero) l = (negsuc 0, refl, inl refl)
decrement_low (pos (suc n)) l =
    let more : (suc n + (2 ^ 31 - 1 + 1) == 0 + 0) ≡ false = ground arith in
    (pos n, decrement_pos n, inr (ground arith, omega arith, omega arith))
decrement_low (negsuc n) l = absurd (omega arith)

call-Room :
    (c : ℕ) (f : Callback) (a : App)
    → Room (suc c) a
    → (a' : App) × (call f a ≡ some a') × Room c a'
unfolding call
call-Room c push_counter_up a r =
    let (n, up, (l, h)) = increment_low a.counter_value c r.low r.high in
    (
      record a { counter_value = n; counter_rect_invalidated = true },
      rw up,
      record { low = l; high = h; shown = inl refl },
    )
call-Room c push_counter_down a r =
    let (n, down, side) = decrement_low a.counter_value r.low in
    elim side [
      | inl h ↦ (
        record a { counter_rect_invalidated = true },
        rw (down, h),
        record { low = r.low; high = ground (arith, r.high); shown = inl refl },
      )
      | inr (h, l, le) ↦ (
        record a { counter_value = n; counter_rect_invalidated = true },
        rw (down, h),
        record { low = l; high = ground (arith, r.high); shown = inl refl },
      )
    ]
call-Room c reset_counter a r = (
  record a { counter_value = pos 0; counter_rect_invalidated = true },
  refl,
  record { low = omega arith; high = ground (arith, r.high); shown = inl refl },
)
call-Room c exit_app a r = (
  record a { running_app = false },
  refl,
  record { low = r.low; high = ground (arith, r.high); shown = r.shown },
)

Room-weaken : {a : App} (c : ℕ) → Room (suc c) a → Room c a
Room-weaken c r = record { low = r.low; high = ground (arith, r.high); shown = r.shown }

pub Room-le : {a : App} {c c' : ℕ} → c' ≤ c → Room c a → Room c' a
Room-le le r = record { low = r.low; high = ground (arith, r.high); shown = r.shown }

call_handler-Room :
    (c : ℕ) (f : Option Callback) (a : App)
    → Room (suc c) a
    → (a' : App) × (call_handler f a ≡ some a') × Room c a'
unfolding call_handler
call_handler-Room c none a r = (a, refl, Room-weaken c r)
call_handler-Room c (some f) a r = call-Room c f a r

click-Room :
    (c n : ℕ) (b : Button) (a : App)
    → Room (suc c) a
    → (a' : App) × (click n b a ≡ some a') × Room c a'
unfolding click
click-Room c n b a r = elim (Bool-cases (ltb 0 n && ltb n 1000)) [
  | inl h ↦
      let (a', run, r') = call_handler-Room c b.short_click_handler a r in (a', rw (h, run), r')
  | inr h ↦ elim (Bool-cases (ltb 6000 n)) [
    | inl k ↦
        let (a', run, r') = call_handler-Room c b.long_click_handler a r in (a', rw (h, k, run), r')
    | inr k ↦ (a, rw (h, k), Room-weaken c r)
  ]
]

button_event-Room :
    (event : ℤ) (c k : ℕ) (b : Button) (a : App)
    → Room (suc c) a
    → b.press_count + suc k < 2 ^ 31
    → (b' : Button) × (a' : App) × (button_event event b a ≡ some (b', a'))
      × ((b'.press_count + k < 2 ^ 31) × Room c a')
unfolding button_event
button_event-Room event c k b a r p = elim (Bool-cases (eqb_ℤ event (pos 0))) [
  | inl h ↦
      let more : (b.press_count == 2 ^ 31 - 1) ≡ false = ground arith in
      (
        record b { press_count = b.press_count + 1; button_state = pressed },
        a,
        rw (h, more),
        (omega arith, Room-weaken c r),
      )
  | inr h ↦ elim (Bool-cases (eqb_ℤ event (pos 1))) [
    | inl l ↦ elim (Bool-cases (is_pressed b.button_state)) [
      | inl s ↦
          let (a', run, r') = click-Room c b.press_count b a r in
          (
            record b { button_state = released; press_count = 0 },
            a',
            rw (h, l, s, run),
            (omega arith, r'),
          )
      | inr s ↦ (
        record b { button_state = released; press_count = 0 },
        a,
        rw (h, l, s),
        (omega arith, Room-weaken c r),
      )
    ]
    | inr l ↦ (b, a, rw (h, l), (omega arith, Room-weaken c r))
  ]
]

-- One pass over the buttons takes one step of room for each of them.
pin_event_in-Room :
    (event : ℤ) (pin c k : ℕ) (bs : List Button) (a : App)
    → Room (length bs + c) a
    → Presses (suc k) bs
    → (bs' : List Button) × (a' : App) × (pin_event_in event pin bs a ≡ some (bs', a'))
      × ((length bs' ≡ length bs) × Presses k bs' × Room c a')
unfolding pin_event_in
pin_event_in-Room event pin c k [] a r p = (
  [],
  a,
  refl,
  (refl, tt, record { low = r.low; high = ground (arith, r.high); shown = r.shown }),
)
pin_event_in-Room event pin c k (b ∷ bs) a r p =
    let (b', a1, run, (q, r1)) = at_button (b.pin_id == pin) in
    let (bs', a2, rest, (len, qs, r2)) = pin_event_in-Room event pin c k bs a1 r1 p.1 in
    (b' ∷ bs', a2, rw (run, rest), (ap suc len, (q, qs), r2))
  where
    at_button :
        (matches : Bool)
        → (b' : Button) × (a' : App) × ((if matches then button_event event b a else some (b, a))
            ≡ some (b', a'))
          × ((b'.press_count + k < 2 ^ 31) × Room (length bs + c) a')
    at_button true = button_event-Room event (length bs + c) k b a (Room-le (omega arith) r) p.0
    at_button false = (b, a, refl, (ground (arith, p.0), Room-le (omega arith) r))

process_pin_event-Room :
    (event : ℤ) (pin c k : ℕ) (p : Panel)
    → length p.buttons ≡ 3
    → Room (3 + c) p.app
    → Presses (suc k) p.buttons
    → (p' : Panel) × (process_pin_event event pin p ≡ some p')
      × ((length p'.buttons ≡ 3) × Room c p'.app × Presses k p'.buttons)
unfolding process_pin_event
process_pin_event-Room event pin c k p len r q =
    let (bs, a, run, (l, qs, r')) =
      pin_event_in-Room event pin c k p.buttons p.app (Room-le (omega arith) r) q in
    (record { buttons = bs; app = a }, rw run, (l ∙ len, r', qs))

pub process_buttons_module-Room :
    (up down control : ℤ) (c k : ℕ) (p : Panel)
    → length p.buttons ≡ 3
    → Room (3 + (3 + (3 + c))) p.app
    → Presses (suc (suc (suc k))) p.buttons
    → (p' : Panel) × (process_buttons_module up down control p ≡ some p')
      × ((length p'.buttons ≡ 3) × Room c p'.app × Presses k p'.buttons)
unfolding process_buttons_module
process_buttons_module-Room up down control c k p len r q =
    let (p1, run1, (l1, r1, q1)) =
      process_pin_event-Room up counter_up_pin (3 + (3 + c)) (suc (suc k)) p len r q in
    let (p2, run2, (l2, r2, q2)) =
      process_pin_event-Room down counter_down_pin (3 + c) (suc k) p1 l1 r1 q1 in
    let (p3, run3, (l3, r3, q3)) =
      process_pin_event-Room control control_button_pin c k p2 l2 r2 q2 in
    (p3, rw (run1, run2, run3), (l3, r3, q3))
