-- ===== src/Reminders/Kernel.antt =====
-- The kernel's copy of the model, task8/kernel_module/reminders_model.c. Its functions are those of
-- the user-space program but for the allocator, the printing, and the timer, which has no callback;
-- the timer is here.
use embedded_basecamp.Prelude.{
  ℕ, ◌≡◌, refl, false, Option, none, some, List, [], ◌∷◌, ◌++◌, if◌then◌else◌, mem, Option-cases,
  inl, inr, arith, ◌∙◌,
}
use embedded_basecamp.Prelude.Int.{pos, eqb_ℤ, decrement}
use embedded_basecamp.Prelude.Partial.{◌>>=◌}
use embedded_basecamp.Prelude.Memory.{update}
use embedded_basecamp.Links.{ListLib}
use embedded_basecamp.Reminders.{Reminder, alert, Model}
use embedded_basecamp.Reminders.Timer as User

module _ {C : Type 0} (lib : ListLib C) where
  open lib use {list_del, entries}

  unfoldable pub forget_in_owner : Option ℕ → ℕ → Model C → Option (Model C)
  forget_in_owner none r m = some m
  forget_in_owner (some u) r m = do
    x ← m.users u
    let x' = record x { notifications_list = list_del r x.notifications_list }
    let m' = record m { users = update m.users u (some x') }
    some (if mem r (entries x.notifications_list) then m' else m)

  -- The body of the test in `handle_reminder_expired`: printk, list_del, the owner's list,
  -- reminder_dtor.
  unfoldable pub expire : ℕ → Reminder → Model C → Option (Model C)
  expire r e m = do
    let m1 = record m { events = m.events ++ alert e.notification_text ∷ [] }
    m2 ←
        forget_in_owner e.belongs_to r (record m1 { reminders_list = list_del r m1.reminders_list })
    some (record m2 { reminders = update m2.reminders r none })

  unfoldable pub handle_reminder_expired : ℕ → Model C → Option (Model C)
  handle_reminder_expired r m = do
    e ← m.reminders r
    if eqb_ℤ e.ellapse_time (pos 0) then expire r e m else some m

  unfoldable pub tick_entry : ℕ → Model C → Option (Model C)
  tick_entry r m = do
    e ← m.reminders r
    t ← decrement e.ellapse_time
    let m' = record m { reminders = update m.reminders r (some (record e { ellapse_time = t })) }
    if eqb_ℤ t (pos 0) then handle_reminder_expired r m' else some m'

  unfoldable pub tick_in : List ℕ → Model C → Option (Model C)
  tick_in [] m = some m
  tick_in (r ∷ rs) m = do m' ← tick_entry r m; tick_in rs m'

  unfoldable pub handle_timer_tick : Model C → Option (Model C)
  handle_timer_tick m = tick_in (entries m.reminders_list) m

  same_forget_in_owner :
      (o : Option ℕ) (r : ℕ) (m : Model C) → forget_in_owner o r m ≡ User.forget_in_owner lib o r m
  unfolding forget_in_owner User.forget_in_owner
  same_forget_in_owner none r m = refl
  same_forget_in_owner (some u) r m = refl

  -- The search in the owner's list leaves the registration of the callback.
  forget_in_owner-callback :
      (o : Option ℕ) (r : ℕ) (m m' : Model C)
      → forget_in_owner o r m ≡ some m'
      → m'.callback_set ≡ m.callback_set
  unfolding forget_in_owner
  forget_in_owner-callback none r m m' run = ground arith
  forget_in_owner-callback (some u) r m m' run = elim (Option-cases (m.users u)) [
    | inl h ↦ absurd (ground arith)
    | inr (x, h) ↦ ground arith
  ]

  -- Without a callback the two bodies are one.
  same_expire :
      (r : ℕ) (e : Reminder) (m : Model C)
      → m.callback_set ≡ false
      → expire r e m ≡ User.expire lib r e m
  unfolding expire User.expire
  same_expire r e m off =
      let m1 = record m {
        events = m.events ++ alert e.notification_text ∷ [];
        reminders_list = list_del r m.reminders_list;
      } in
      elim (Option-cases (forget_in_owner e.belongs_to r m1)) [
        | inl h ↦ rw (← same_forget_in_owner e.belongs_to r m1, h) refl
        | inr (m2, h) ↦
            let still = forget_in_owner-callback e.belongs_to r m1 m2 h ∙ off in
            rw (← same_forget_in_owner e.belongs_to r m1, h) (rw still refl)
      ]

  expire-callback :
      (r : ℕ) (e : Reminder) (m m' : Model C)
      → expire r e m ≡ some m'
      → m'.callback_set ≡ m.callback_set
  unfolding expire
  expire-callback r e m m' run =
      let m1 = record m {
        events = m.events ++ alert e.notification_text ∷ [];
        reminders_list = list_del r m.reminders_list;
      } in
      elim (Option-cases (forget_in_owner e.belongs_to r m1)) [
        | inl h ↦ absurd (ground arith)
        | inr (m2, h) ↦ ground (arith, forget_in_owner-callback e.belongs_to r m1 m2 h)
      ]

  same_handle_reminder_expired :
      (r : ℕ) (m : Model C)
      → m.callback_set ≡ false
      → handle_reminder_expired r m ≡ User.handle_reminder_expired lib r m
  unfolding handle_reminder_expired User.handle_reminder_expired
  same_handle_reminder_expired r m off = elim (Option-cases (m.reminders r)) [
    | inl h ↦ rw h refl
    | inr (e, h) ↦ rw (h, same_expire r e m off) refl
  ]

  handle_reminder_expired-callback :
      (r : ℕ) (m m' : Model C)
      → handle_reminder_expired r m ≡ some m'
      → m'.callback_set ≡ m.callback_set
  unfolding handle_reminder_expired
  handle_reminder_expired-callback r m m' run = elim (Option-cases (m.reminders r)) [
    | inl h ↦ absurd (ground arith)
    | inr (e, h) ↦ ground (arith, expire-callback r e m m')
  ]

  same_tick_entry :
      (r : ℕ) (m : Model C) → m.callback_set ≡ false → tick_entry r m ≡ User.tick_entry lib r m
  unfolding tick_entry User.tick_entry
  same_tick_entry r m off = elim (Option-cases (m.reminders r)) [
    | inl h ↦ rw h refl
    | inr (e, h) ↦ elim (Option-cases (decrement e.ellapse_time)) [
      | inl k ↦ rw (h, k) refl
      | inr (t, k) ↦
          let m1 = record m {
            reminders = update m.reminders r (some (record e { ellapse_time = t }));
          } in
          rw (h, k, same_handle_reminder_expired r m1 off) refl
    ]
  ]

  tick_entry-callback :
      (r : ℕ) (m m' : Model C) → tick_entry r m ≡ some m' → m'.callback_set ≡ m.callback_set
  unfolding tick_entry
  tick_entry-callback r m m' run = elim (Option-cases (m.reminders r)) [
    | inl h ↦ absurd (ground arith)
    | inr (e, h) ↦ elim (Option-cases (decrement e.ellapse_time)) [
      | inl k ↦ absurd (ground arith)
      | inr (t, k) ↦
          let m1 = record m {
            reminders = update m.reminders r (some (record e { ellapse_time = t }));
          } in
          ground (arith, handle_reminder_expired-callback r m1 m')
    ]
  ]

  same_tick_in :
      (todo : List ℕ) (m : Model C)
      → m.callback_set ≡ false
      → tick_in todo m ≡ User.tick_in lib todo m
  unfolding tick_in User.tick_in
  same_tick_in [] m off = refl
  same_tick_in (r ∷ todo) m off = elim (Option-cases (tick_entry r m)) [
    | inl h ↦ rw (← same_tick_entry r m off, h) refl
    | inr (m1, h) ↦
        rw (← same_tick_entry r m off, h)
          (same_tick_in todo m1 (tick_entry-callback r m m1 h ∙ off))
  ]

  -- As long as no callback is registered, a round of the kernel's timer is a round of the user-space
  -- program's, its faults included.
  pub handle_timer_tick-User :
      (m : Model C) → m.callback_set ≡ false → handle_timer_tick m ≡ User.handle_timer_tick lib m
  unfolding handle_timer_tick User.handle_timer_tick
  handle_timer_tick-User m off = same_tick_in (entries m.reminders_list) m off
