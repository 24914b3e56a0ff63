-- ===== src/Reminders/Due.antt =====
-- What a tick makes of one reminder.
use embedded_basecamp.Prelude.{
  ℕ, ◌≡◌, refl, Bool, true, false, Option, none, some, List, [], ◌∷◌, ◌++◌, arith, mem,
  if◌then◌else◌, Option-cases, inl, inr, append_assoc,
}
use embedded_basecamp.Prelude.Int.{pos, eqb_ℤ, pred_ℤ, int_min, decrement}
use embedded_basecamp.Prelude.Memory.{Blocks}
use embedded_basecamp.Links.{ListLib}
use embedded_basecamp.Reminders.{Reminder, User, Event, alert, about_to_be_removed, Model}
use embedded_basecamp.Reminders.Timer.{forget_in_owner, expire, handle_reminder_expired, tick_entry}
use embedded_basecamp.Reminders.Invariant.{owner_of, queue, IsValid, retimed, unlinked}

-- The reminder's next time is 0.
abbrev pub is_due : Option Reminder → Bool
is_due none = false
is_due (some e) = eqb_ℤ (pred_ℤ e.ellapse_time) (pos 0)

-- The block is live and its time is above INT_MIN.
abbrev pub CanTick : Option Reminder → Type 0
CanTick none = ⊥
CanTick (some e) = eqb_ℤ e.ellapse_time int_min ≡ false

-- The block after a tick: freed if it is due, else one second less.
abbrev pub after_tick : Option Reminder → Option Reminder
after_tick none = none
after_tick (some e) =
    if is_due (some e) then none else some (record e { ellapse_time = pred_ℤ e.ellapse_time })

abbrev pub alert_of : Bool → ℕ → Option Reminder → List Event
alert_of cb r none = []
alert_of cb r (some e) = alert e.notification_text ∷ (if cb then about_to_be_removed r ∷ [] else [])

-- What a tick reports about a queue: the due reminders, in the order of the queue.
abbrev pub alerts : Blocks Reminder → Bool → List ℕ → List Event
alerts R cb [] = []
alerts R cb (r ∷ rs) =
    if is_due (R r) then alert_of cb r (R r) ++ alerts R cb rs else alerts R cb rs

pub live_of : (b : Option Reminder) → CanTick b → (e : Reminder) × (b ≡ some e) × CanTick (some e)
live_of none c = absurd c
live_of (some e) c = (e, refl, c)

module _ {C : Type 0} (lib : ListLib C) where
  open lib use {entries}

  -- The owner of a queued reminder, with its block.
  pub owner_live :
      (m : Model C) (r : ℕ)
      → IsValid lib m
      → mem r (queue lib m) ≡ true
      → (u : ℕ) × (x : User C) × (owner_of (m.reminders r) ≡ some u)
        × (m.users u ≡ some x)
        × (mem r (entries x.notifications_list) ≡ true)
  owner_live m r v q =
      let (u, o, n) = v.queue_owned r q in
      elim (Option-cases (m.users u)) [
        | inl h ↦ absurd (ground arith)
        | inr (x, h) ↦ (u, x, o, h, rw h at n)
      ]

  pub tick_entry-retimed :
      (m : Model C) (r : ℕ) (e : Reminder)
      → m.reminders r ≡ some e
      → CanTick (some e)
      → is_due (some e) ≡ false
      → tick_entry lib r m ≡ some (retimed m r e (pred_ℤ e.ellapse_time))
  unfolding tick_entry decrement
  tick_entry-retimed m r e h c d = rw (h, c, d)

  pub tick_entry-expire :
      (m : Model C) (r : ℕ) (e : Reminder)
      → m.reminders r ≡ some e
      → CanTick (some e)
      → is_due (some e) ≡ true
      → tick_entry lib r m
        ≡ expire lib r
            (record e { ellapse_time = pred_ℤ e.ellapse_time })
            (retimed m r e (pred_ℤ e.ellapse_time))
  unfolding tick_entry decrement handle_reminder_expired
  tick_entry-expire m r e h c d = rw (h, c, d) (ground arith)

  -- Of a valid model, the expiry of a queued reminder unlinks it from both lists and reports it.
  pub expire-unlinked :
      (m : Model C) (r u : ℕ) (e : Reminder) (x : User C)
      → e.belongs_to ≡ some u
      → m.users u ≡ some x
      → mem r (entries x.notifications_list) ≡ true
      → expire lib r e m
        ≡ some (unlinked lib m u x r (m.events ++ alert_of m.callback_set r (some e)))
  unfolding expire forget_in_owner
  expire-unlinked m r u e x o l n =
      rw (o, l, n)
        (ground (
          arith,
          append_assoc m.events (alert e.notification_text ∷ []) (about_to_be_removed r ∷ []),
        ))
