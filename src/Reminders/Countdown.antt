-- ===== src/Reminders/Countdown.antt =====
-- Rounds of the timer (handle_timer_tick once a second): the queue's order and the life of a
-- reminder.
use embedded_basecamp.Prelude.{
  ℕ, zero, suc, ◌≡◌, refl, Bool, true, false, not, Option, none, some, List, [], ◌∷◌, ◌++◌, arith,
  mem, keep, mem-keep, ◌==◌, if◌then◌else◌, Bool-cases, inl, inr, ap, ◌∙◌, sym, subst, append_assoc,
}
use embedded_basecamp.Prelude.Int.{ℤ, pos, eqb_ℤ, ◌≤ℤ◌, pred_ℤ}
use embedded_basecamp.Prelude.Memory.{Blocks}
use embedded_basecamp.Prelude.Partial.{◌>>=◌}
use embedded_basecamp.Links.{ListLib}
use embedded_basecamp.Reminders.{Reminder, Event, alert, about_to_be_removed, Model}
use embedded_basecamp.Reminders.Timer.{handle_timer_tick}
use embedded_basecamp.Reminders.Invariant.{queue, IsValid}
use embedded_basecamp.Reminders.Order.{
  time_of, Ascending, Ascending-retime, Ascending-keep, pred_mono,
}
use embedded_basecamp.Reminders.Due.{is_due, CanTick, after_tick, alert_of, alerts}
use embedded_basecamp.Reminders.Tick.{Ticked, handle_timer_tick-Ticked}

-- The report of a due reminder is among those of its queue.
alerts-split :
    (R : Blocks Reminder) (cb : Bool) (r : ℕ) (e : Reminder) (todo : List ℕ)
    → mem r todo ≡ true
    → R r ≡ some e
    → is_due (some e) ≡ true
    → (before after : List Event) × (alerts R cb todo ≡ before ++ alert e.notification_text ∷ after)
alerts-split R cb r e [] q l d = cc
alerts-split R cb r e (s ∷ todo) q l d = elim (Bool-cases (s == r)) [
  | inl h ↦
      let k : s ≡ r = ground arith in
      ([], (if cb then about_to_be_removed r ∷ [] else []) ++ alerts R cb todo, rw (k, l, d))
  | inr h ↦
      let (before, after, eq) = alerts-split R cb r e todo (ground arith) l d in
      elim (Bool-cases (is_due (R s))) [
        | inl k ↦ (
          alert_of cb s (R s) ++ before,
          after,
          rw (k, eq) (sym (append_assoc (alert_of cb s (R s)) before _)),
        )
        | inr k ↦ (before, after, rw k eq)
      ]
]

positive_pred : (z : ℤ) → pos 1 ≤ℤ z → eqb_ℤ (pred_ℤ z) (pos 0) ≡ false → pos 1 ≤ℤ pred_ℤ z
positive_pred z h k = ground arith

module _ {C : Type 0} (lib : ListLib C) where
  -- Every queued reminder is live, with a time of at least 1.
  abbrev pub Positive : Model C → Type 0
  Positive m =
      (r : ℕ)
      → mem r (queue lib m) ≡ true
      → (e : Reminder) × (m.reminders r ≡ some e) × (pos 1 ≤ℤ e.ellapse_time)

  -- n rounds of the timer.
  unfoldable pub ticks : ℕ → Model C → Option (Model C)
  ticks zero m = some m
  ticks (suc n) m = handle_timer_tick lib m >>= ticks n

  later_time :
      (b : Option Reminder)
      → CanTick b
      → is_due b ≡ false
      → time_of (after_tick b) ≡ pred_ℤ (time_of b)
  later_time none c d = absurd c
  later_time (some e) c d = rw d

  -- A round keeps an ascending queue ascending.
  pub handle_timer_tick-Ascending :
      (m m' : Model C)
      → IsValid lib m
      → ((r : ℕ) → mem r (queue lib m) ≡ true → CanTick (m.reminders r))
      → handle_timer_tick lib m ≡ some m'
      → Ascending m.reminders (queue lib m)
      → Ascending m'.reminders (queue lib m')
  handle_timer_tick-Ascending m m' v can run a =
      let (m1, run1, q, t) = handle_timer_tick-Ticked lib m v can in
      let same : m1 ≡ m' = cc (run, run1) in
      let p : ℕ → Bool = λ r. not (is_due (m.reminders r)) in
      let kept = Ascending-keep m.reminders p (queue lib m) a in
      subst (λ z. Ascending z.reminders (queue lib z)) same
        (rw q (
          Ascending-retime pred_ℤ pred_mono m.reminders m1.reminders (keep p (queue lib m))
            (λ r h.
              let in_queue = rw (mem-keep r p (queue lib m)) at h in
              let was : mem r (queue lib m) ≡ true = ground arith in
              rw (t.memory r, was) (later_time (m.reminders r) (can r was) (ground arith)))
            kept))

  module _ (m : Model C) (v : IsValid lib m) (positive : Positive m) where
    can_tick : (r : ℕ) → mem r (queue lib m) ≡ true → CanTick (m.reminders r)
    can_tick r q = let (e, l, p) = positive r q in rw l (ground arith)

    pub tick_Ticked :
        (m1 : Model C) × (handle_timer_tick lib m ≡ some m1)
        × (queue lib m1 ≡ keep (λ r. not (is_due (m.reminders r))) (queue lib m))
        × Ticked lib m.reminders (queue lib m) m m1
    tick_Ticked = handle_timer_tick-Ticked lib m v can_tick

    pub Positive-Ticked :
        (m1 : Model C)
        → queue lib m1 ≡ keep (λ r. not (is_due (m.reminders r))) (queue lib m)
        → Ticked lib m.reminders (queue lib m) m m1
        → Positive m1
    Positive-Ticked m1 q t r h =
        let in_queue = rw (q, mem-keep r (λ s. not (is_due (m.reminders s))) (queue lib m)) at h in
        let was : mem r (queue lib m) ≡ true = ground arith in
        let (e, l, p) = positive r was in
        let not_due : is_due (m.reminders r) ≡ false = ground arith in
        let later : is_due (some e) ≡ false = subst (λ b. is_due b ≡ false) l not_due in
        (
          record e { ellapse_time = pred_ℤ e.ellapse_time },
          rw (t.memory r, was, l, later),
          positive_pred e.ellapse_time p later,
        )

    -- A reminder whose time is more than 1 stays queued, with one second less.
    Ticked-stays :
        (m1 : Model C) (r k : ℕ) (e : Reminder)
        → queue lib m1 ≡ keep (λ r. not (is_due (m.reminders r))) (queue lib m)
        → Ticked lib m.reminders (queue lib m) m m1
        → mem r (queue lib m) ≡ true
        → m.reminders r ≡ some e
        → e.ellapse_time ≡ pos (suc (suc k))
        → (mem r (queue lib m1) ≡ true)
          × (m1.reminders r ≡ some (record e { ellapse_time = pos (suc k) }))
    Ticked-stays m1 r k e q t was l s = (
      rw (q, mem-keep r (λ s. not (is_due (m.reminders s))) (queue lib m), was, l, s)
          (ground arith),
      rw (t.memory r, was, l, s) (ground arith),
    )

    -- A reminder whose time is 1 is reported, taken off the queue and freed.
    Ticked-fires :
        (m1 : Model C) (r : ℕ) (e : Reminder)
        → queue lib m1 ≡ keep (λ r. not (is_due (m.reminders r))) (queue lib m)
        → Ticked lib m.reminders (queue lib m) m m1
        → mem r (queue lib m) ≡ true
        → m.reminders r ≡ some e
        → e.ellapse_time ≡ pos 1
        → (mem r (queue lib m1) ≡ false)
          × (m1.reminders r ≡ none)
          × ((before after : List Event) × (m1.events
                ≡ before ++ alert e.notification_text ∷ after))
    Ticked-fires m1 r e q t was l s =
        let due : is_due (some e) ≡ true = rw s refl in
        let (before, after, eq) =
          alerts-split m.reminders m.callback_set r e (queue lib m) was l due in
        (
          rw (q, mem-keep r (λ s. not (is_due (m.reminders s))) (queue lib m), was, l, due) refl,
          rw (t.memory r, was, l, due),
          (m.events ++ before, after, rw (t.events, eq) (sym (append_assoc m.events before _))),
        )

  -- On a valid model whose times are all positive, k rounds leave a reminder of time k + 1 queued;
  -- the next round reports it, takes it off the queue and frees it.
  pub countdown :
      (k : ℕ) (m : Model C) (r : ℕ) (e : Reminder)
      → IsValid lib m
      → Positive m
      → mem r (queue lib m) ≡ true
      → m.reminders r ≡ some e
      → e.ellapse_time ≡ pos (suc k)
      → (m1 m2 : Model C) × (ticks k m ≡ some m1)
        × (mem r (queue lib m1) ≡ true)
        × (m1.reminders r ≡ some (record e { ellapse_time = pos 1 }))
        × (handle_timer_tick lib m1 ≡ some m2)
        × (mem r (queue lib m2) ≡ false)
        × (m2.reminders r ≡ none)
        × ((before after : List Event) × (m2.events ≡ before ++ alert e.notification_text ∷ after))
  unfolding ticks
  countdown zero m r e v p q l t =
      let (m2, run, q2, k2) = tick_Ticked m v p in
      let (off, freed, told) = Ticked-fires m v p m2 r e q2 k2 q l t in
      (m, m2, refl, q, rw (l, ← t), run, off, freed, told)
  countdown (suc k) m r e v p q l t =
      let (m', run, q', k') = tick_Ticked m v p in
      let (stays, now) = Ticked-stays m v p m' r k e q' k' q l t in
      let (m1, m2, rest, on, last, run2, off, freed, told) =
        countdown k m' r (record e { ellapse_time = pos (suc k) }) k'.valid
          (Positive-Ticked m v p m' q' k') stays now refl in
      (m1, m2, ap (λ o. o >>= ticks k) run ∙ rest, on, last, run2, off, freed, told)
