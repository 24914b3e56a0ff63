-- ===== src/Buttons/Counter.antt =====
-- The counter over runs of the main loop.
use embedded_basecamp.Prelude.{
  ℕ, suc, ◌*◌, ◌≡◌, refl, true, false, some, List, [], ◌∷◌, arith, length, Bool-cases, ◌⊎◌, inl,
  inr, ap, ◌∙◌, sym, subst, if_true,
}
use embedded_basecamp.Prelude.Int.{ℤ, pos, ◌≤ℤ◌}
use embedded_basecamp.Prelude.Partial.{◌>>=◌}
use embedded_basecamp.Buttons.{Panel, draw_counter_value, main_loop}
use embedded_basecamp.Buttons.Room.{Room, Presses, Room-le, process_buttons_module-Room}

-- The value drawn last is the counter.
abbrev pub Drawn : Panel → Type 0
Drawn p = (ns : List ℤ) × (p.app.drawn ≡ p.app.counter_value ∷ ns)

draw_counter_value-Drawn :
    (c : ℕ) (p : Panel)
    → Room c p.app
    → Drawn (draw_counter_value p)
      × ((draw_counter_value p).buttons ≡ p.buttons)
      × Room c (draw_counter_value p).app
unfolding draw_counter_value
draw_counter_value-Drawn c p r = elim (Bool-cases p.app.counter_rect_invalidated) [
  | inl h ↦ rw h (
    (p.app.drawn, refl),
    refl,
    record { low = r.low; high = r.high; shown = inr (p.app.drawn, refl) },
  )
  | inr h ↦
      rw h (
        valid h r.shown,
        refl,
        record { low = r.low; high = r.high; shown = inr (valid h r.shown) },
      )
]
  where
    valid :
        p.app.counter_rect_invalidated ≡ false
        → (p.app.counter_rect_invalidated ≡ true)
          ⊎ ((ns : List ℤ) × (p.app.drawn ≡ p.app.counter_value ∷ ns))
        → Drawn p
    valid h (inl k) = absurd (cc (h, k))
    valid h (inr d) = d

-- With three buttons, a counter that is not negative, a drawing that is invalidated or whose last
-- value is the counter, and room below INT_MAX for nine steps of the counter and three samples per
-- round: the main loop runs through its samples without a fault. The counter is not negative at its
-- end, and either nothing has changed or the value that was drawn last is the counter.
pub main_loop-Drawn :
    (samples : List (ℤ × ℤ × ℤ)) (p : Panel)
    → length p.buttons ≡ 3
    → Room (9 * length samples) p.app
    → Presses (3 * length samples) p.buttons
    → (p' : Panel) × (main_loop samples p ≡ some p')
      × (pos 0 ≤ℤ p'.app.counter_value)
      × ((p' ≡ p) ⊎ Drawn p')
unfolding main_loop
main_loop-Drawn [] p len r q = (p, refl, r.low, inl refl)
main_loop-Drawn ((up, down, control) ∷ samples) p len r q = elim (Bool-cases p.app.running_app) [
  | inl h ↦
      let n : ℕ = length samples in
      let q' = subst (λ k. Presses k p.buttons) (three_more n) q in
      let (p1, run, (l1, r1, q1)) =
        process_buttons_module-Room up down control (9 * n) (3 * n) p len (Room-le (omega arith) r)
          q' in
      let (drawn, kept, r2) = draw_counter_value-Drawn (9 * n) p1 r1 in
      let (p2, rest, low, last) =
        main_loop-Drawn samples (draw_counter_value p1) (rw kept l1) r2 (rw kept q1) in
      (
        p2,
        if_true _ _ _ h
            ∙ ap (λ o. o >>= λ p'. main_loop samples (draw_counter_value p')) run
            ∙ rest,
        low,
        inr (drawn_last drawn last),
      )
  | inr h ↦ (p, rw h, r.low, inl refl)
]
  where
    three_more : (n : ℕ) → 3 * suc n ≡ suc (suc (suc (3 * n)))
    three_more n = omega arith

    drawn_last : {p1 p2 : Panel} → Drawn p1 → (p2 ≡ p1) ⊎ Drawn p2 → Drawn p2
    drawn_last d (inl e) = subst Drawn (sym e) d
    drawn_last d (inr d') = d'
