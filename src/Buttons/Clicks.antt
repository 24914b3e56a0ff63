-- ===== src/Buttons/Clicks.antt =====
-- One button: what a press that is held for a number of samples calls on its release.
use embedded_basecamp.Prelude.{
  ℕ, zero, suc, ◌+◌, ◌-◌, ◌^◌, ◌<◌, ◌≡◌, refl, true, false, Option, none, some, List, [], ◌∷◌, ◌++◌,
  arith, replicate, ltb, leb, ◌==◌, if◌then◌else◌, Bool-cases, Option-cases, inl, inr, ◌∙◌,
}
use embedded_basecamp.Prelude.Int.{ℤ, pos}
use embedded_basecamp.Prelude.Partial.{◌>>=◌}
use embedded_basecamp.Buttons.{
  Callback, Button, App, pressed, released, call_handler, click, button_event,
}

-- The button sees the samples of its pin, in order.
unfoldable pub button_events : List ℤ → Button → App → Option (Button × App)
button_events [] b a = some (b, a)
button_events (e ∷ es) b a = do (b', a') ← button_event e b a; button_events es b' a'

button_events-append :
    (es fs : List ℤ) (b : Button) (a : App)
    → button_events (es ++ fs) b a ≡ (button_events es b a >>= λ s. button_events fs s.0 s.1)
unfolding button_events
button_events-append [] fs b a = refl
button_events-append (e ∷ es) fs b a = elim (Option-cases (button_event e b a)) [
  | inl h ↦ rw h
  | inr ((b', a'), h) ↦ rw h (button_events-append es fs b' a')
]

-- n + 1 more samples of a pressed button are counted.
button_events-pressed :
    (n : ℕ) (b : Button) (a : App)
    → b.press_count + n < 2 ^ 31 - 1
    → button_events (replicate (suc n) (pos 0)) b a
      ≡ some (record b { press_count = b.press_count + suc n; button_state = pressed }, a)
unfolding button_events button_event
button_events-pressed zero b a h =
    let more : (b.press_count == 2 ^ 31 - 1) ≡ false = ground arith in rw more
button_events-pressed (suc n) b a h =
    let more : (b.press_count == 2 ^ 31 - 1) ≡ false = ground arith in
    let e : b.press_count + 1 + suc n ≡ b.press_count + suc (suc n) = omega arith in
    rw (more, ← e)
      (button_events-pressed n
        (record b { press_count = b.press_count + 1; button_state = pressed }) a (omega arith))

-- The handler of a press that is held for n samples, if any.
abbrev pub handler_of : ℕ → Button → Option Callback
handler_of n b =
    if ltb n 1000 then b.short_click_handler else if leb n 6000 then none else b.long_click_handler

-- The button after a release.
abbrev pub idle : Button → App → Button × App
idle b a = (record b { press_count = 0; button_state = released }, a)

release :
    (n : ℕ) (b : Button) (a : App)
    → button_events (pos 1 ∷ []) (record b { press_count = suc n; button_state = pressed }) a
      ≡ (call_handler (handler_of (suc n) b) a >>= λ a'. some (idle b a'))
unfolding button_events button_event click call_handler
release n b a =
    let some_sample : ltb 0 (suc n) ≡ true = ground arith in
    elim (Bool-cases (ltb (suc n) 1000)) [
      | inl h ↦ rw (some_sample, h) (unit_right (call_handler b.short_click_handler a))
      | inr h ↦ elim (Bool-cases (leb (suc n) 6000)) [
        | inl k ↦ let l : ltb 6000 (suc n) ≡ false = ground arith in rw (some_sample, h, k, l)
        | inr k ↦
            let l : ltb 6000 (suc n) ≡ true = ground arith in
            rw (some_sample, h, k, l) (unit_right (call_handler b.long_click_handler a))
      ]
    ]
  where
    unit_right :
        (m : Option App)
        → ((m >>= λ a'. some (idle b a')) >>= λ s. some s) ≡ (m >>= λ a'. some (idle b a'))
    unit_right none = refl
    unit_right (some a') = refl

-- A button that is not pressed, held for n + 1 samples and released, calls its short handler if
-- these are fewer than 1000, its long handler if they are more than 6000 and none in between, once;
-- then it is released with its count at 0.
pub button_events-click :
    (n : ℕ) (b : Button) (a : App)
    → b.press_count ≡ 0
    → n < 2 ^ 31 - 1
    → button_events (replicate (suc n) (pos 0) ++ pos 1 ∷ []) b a
      ≡ (call_handler (handler_of (suc n) b) a >>= λ a'. some (idle b a'))
unfolding button_events
button_events-click n b a start bound =
    button_events-append (replicate (suc n) (pos 0)) (pos 1 ∷ []) b a
    ∙ rw (button_events-pressed n b a (omega arith))
        (let e : b.press_count + suc n ≡ suc n = omega arith in rw e (release n b a))
