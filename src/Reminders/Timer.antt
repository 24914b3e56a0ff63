-- ===== src/Reminders/Timer.antt =====
-- The timer: handle_reminder_expired and handle_timer_tick.
use embedded_basecamp.Prelude.{ℕ, Option, none, some, List, [], ◌∷◌, ◌++◌, if◌then◌else◌, mem}
use embedded_basecamp.Prelude.Int.{pos, eqb_ℤ, decrement}
use embedded_basecamp.Prelude.Partial.{◌>>=◌}
use embedded_basecamp.Prelude.Memory.{update}
use embedded_basecamp.Links.{ListLib}
use embedded_basecamp.Reminders.{Reminder, Event, alert, about_to_be_removed, Model}

-- `list_for_each_safe` reads the next entry before the body runs, and the body unlinks only the
-- entry that it is at (the registered callback is not part of the model, and is taken to leave the
-- list alone). So the loops run over the entries present at their start.
module _ {C : Type 0} (lib : ListLib C) where
  open lib use {list_del, entries}

  -- The owner's list, searched for the reminder; a fault if the owner has been freed.
  unfoldable pub forget_in_owner : Option ℕ → ℕ → Model C → Option (Model C)
  forget_in_owner none r m = some m
  forget_in_owner (some u) r m = do
    x ← m.users u
    let x' = record x { notifications_list = list_del r x.notifications_list }
    let m' = record m { users = update m.users u (some x') }
    some (if mem r (entries x.notifications_list) then m' else m)

  abbrev pub emit : Event → Model C → Model C
  emit e m = record m { events = m.events ++ e ∷ [] }

  -- The body of the test in `handle_reminder_expired`.
  unfoldable pub expire : ℕ → Reminder → Model C → Option (Model C)
  expire r e m = do
    let m1 = emit (alert e.notification_text) m
    let m2 = record m1 { reminders_list = list_del r m1.reminders_list }
    m3 ← forget_in_owner e.belongs_to r m2
    let m4 = if m3.callback_set then emit (about_to_be_removed r) m3 else m3
    some (record m4 { reminders = update m4.reminders r none })

  unfoldable pub handle_reminder_expired : ℕ → Model C → Option (Model C)
  handle_reminder_expired r m = do
    e ← m.reminders r
    if eqb_ℤ e.ellapse_time (pos 0) then expire r e m else some m

  -- The body of the loop in `handle_timer_tick`.
  unfoldable pub tick_entry : ℕ → Model C → Option (Model C)
  tick_entry r m = do
    e ← m.reminders r
    t ← decrement e.ellapse_time
    let m' = record m { reminders = update m.reminders r (some (record e { ellapse_time = t })) }
    if eqb_ℤ t (pos 0) then handle_reminder_expired r m' else some m'

  unfoldable pub tick_in : List ℕ → Model C → Option (Model C)
  tick_in [] m = some m
  tick_in (r ∷ rs) m = do m' ← tick_entry r m; tick_in rs m'

  unfoldable pub handle_timer_tick : Model C → Option (Model C)
  handle_timer_tick m = tick_in (entries m.reminders_list) m
