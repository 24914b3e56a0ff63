-- ===== src/Reminders/Book/Client.antt =====
-- A client of the reminders model that makes four of its calls, in any sequence: add_new_user,
-- add_user_reminder, remove_user_notification and handle_timer_tick. The allocator is a parameter.
use embedded_basecamp.Prelude.{
  ℕ, ◌≡◌, refl, Bool, true, false, Option, none, some, List, [], ◌∷◌, ◌&&◌, ap, ◌∙◌, mem,
}
use embedded_basecamp.Prelude.Int.{pos, ◌≤ℤ◌, eqb_ℤ, int_min}
use embedded_basecamp.Prelude.Memory.{is_some}
use embedded_basecamp.Prelude.Partial.{◌>>=◌}
use embedded_basecamp.Links.{ListLib}
use embedded_basecamp.Reminders.{Model, initial}
use embedded_basecamp.Reminders.Users.{add_new_user}
use embedded_basecamp.Reminders.Notifications.{add_user_reminder, remove_user_notification}
use embedded_basecamp.Reminders.Timer.{handle_timer_tick}
use embedded_basecamp.Reminders.Invariant.{queue, initial-IsValid}
use embedded_basecamp.Reminders.Book.{Op, enroll, remind, strike, second, turn_if, turns, book}
use embedded_basecamp.Reminders.Book.Calls.{Ready, Left, add_new_user-Left, add_user_reminder-Left}
use embedded_basecamp.Reminders.Book.Strikes.{remove_user_notification-Left}
use embedded_basecamp.Reminders.Book.Rounds.{handle_timer_tick-Left}

-- The allocator: the answers of the two `malloc`s of a call, on the state it is called in. A block
-- that it answers is free.
pub record Supply (C : Type 0) : Type 0 where
  pub user_block : Model C → Option ℕ
  pub user_buffer : Model C → Bool
  pub reminder_block : Model C → Option ℕ
  pub reminder_buffer : Model C → Bool
  pub user_block_free : (m : Model C) (u : ℕ) → user_block m ≡ some u → m.users u ≡ none
  pub reminder_block_free : (m : Model C) (r : ℕ) → reminder_block m ≡ some r → m.reminders r ≡ none

-- The arguments that a client may give: positive times, and a number that can be decremented.
abbrev pub Allowed : Op → Type 0
Allowed (enroll name) = Unit
Allowed (remind name title time) = pos 1 ≤ℤ time
Allowed (strike name number) = eqb_ℤ number int_min ≡ false
Allowed second = Unit

abbrev pub AllAllowed : List Op → Type 0
AllAllowed [] = Unit
AllAllowed (op ∷ ops) = Allowed op × AllAllowed ops

module _ {C : Type 0} (lib : ListLib C) (supply : Supply C) where
  abbrev pub perform : Op → Model C → Option (Model C)
  perform (enroll name) m = add_new_user lib (supply.user_block m) (supply.user_buffer m) name m
  perform (remind name title time) m =
      add_user_reminder lib (supply.reminder_block m) (supply.reminder_buffer m) name title time m
  perform (strike name number) m = remove_user_notification lib name number m
  perform second m = handle_timer_tick lib m

  -- Whether the call has the memory that it asks for.
  abbrev pub granted : Op → Model C → Bool
  granted (enroll name) m = is_some (supply.user_block m) && supply.user_buffer m
  granted (remind name title time) m = is_some (supply.reminder_block m) && supply.reminder_buffer m
  granted (strike name number) m = true
  granted second m = true

  abbrev pub run : List Op → Model C → Option (Model C)
  run [] m = some m
  run (op ∷ ops) m = perform op m >>= run ops

  -- For each call of the run, whether it had its memory.
  abbrev pub grants : List Op → Model C → List Bool
  grants [] m = []
  grants (op ∷ ops) m = granted op m ∷ elim (perform op m) [ none ↦ [] | some m' ↦ grants ops m' ]

  pub perform-Left :
      (op : Op) (m : Model C)
      → Ready lib m
      → Allowed op
      → Left lib m (perform op m) (turn_if (granted op m) op (book lib m))
  perform-Left (enroll name) m ready ok =
      add_new_user-Left lib (supply.user_block m) (supply.user_buffer m) name m ready
        (supply.user_block_free m)
  perform-Left (remind name title time) m ready ok =
      add_user_reminder-Left lib (supply.reminder_block m) (supply.reminder_buffer m) name title
        time m ready ok (supply.reminder_block_free m)
  perform-Left (strike name number) m ready ok =
      remove_user_notification-Left lib m name number ready ok
  perform-Left second m ready ok = handle_timer_tick-Left lib m ready

  -- Whatever the sequence of calls of add_new_user, add_user_reminder, remove_user_notification and
  -- handle_timer_tick, with positive times and numbers above INT_MIN, from a ready model on, and
  -- whatever memory the allocator refuses: none of these calls faults, the model that they leave is
  -- ready, and its pages are those of the same calls on the pages, without the calls that were
  -- refused memory.
  pub run-turns :
      (ops : List Op) (m : Model C)
      → Ready lib m
      → AllAllowed ops
      → (m' : Model C) × (run ops m ≡ some m')
        × Ready lib m'
        × (book lib m' ≡ turns ops (grants ops m) (book lib m))
  run-turns [] m ready ok = (m, refl, ready, refl)
  run-turns (op ∷ ops) m ready ok =
      let left = perform-Left op m ready ok.0 in
      let (m', rest, ready', pages) = run-turns ops left.after left.ready ok.1 in
      (
        m',
        ap (λ o. o >>= run ops) left.run ∙ rest,
        ready',
        rw left.run (pages ∙ ap (turns ops (grants ops left.after)) left.pages),
      )

-- Before the first call.
pub initial-Ready : {C : Type 0} (lib : ListLib C) → Ready lib (initial lib)
initial-Ready lib = record { valid = initial-IsValid lib; positive = λ r h. absurd (nothing r h) }
  where
    nothing : (r : ℕ) → mem r (queue lib (initial lib)) ≡ true → ⊥
    nothing r h = let k = rw lib.entries-init_list_head at h in cc
