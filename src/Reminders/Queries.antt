-- ===== src/Reminders/Queries.antt =====
-- The show functions, the enumerator, the getters, the counters and the registration of callbacks.
use Prim.Native.String.{String}
use embedded_basecamp.Prelude.{ℕ, ◌+◌, Option, none, some, Bool, List, [], ◌∷◌}
use embedded_basecamp.Prelude.Int.{ℤ}
use embedded_basecamp.Prelude.Partial.{◌>>=◌}
use embedded_basecamp.Links.{ListLib}
use embedded_basecamp.Reminders.{Model}
use embedded_basecamp.Reminders.Users.{find_user_entry}

module _ {C : Type 0} (lib : ListLib C) where
  open lib use {list_empty, entries}

  unfoldable pub for_each_in : {S : Type 0} → (ℕ → S → S) → List ℕ → S → S
  for_each_in enumerator [] s = s
  for_each_in enumerator (r ∷ rs) s = for_each_in enumerator rs (enumerator r s)

  -- `enumerator` is what the callback does to a state of its own.
  unfoldable pub for_each_notification_in_queue : {S : Type 0} → (ℕ → S → S) → Model C → S → S
  for_each_notification_in_queue enumerator m s =
      for_each_in enumerator (entries m.reminders_list) s

  -- Whether the pointer that is registered is not NULL.
  unfoldable pub set_notification_is_about_to_remove_callback : Bool → Model C → Model C
  set_notification_is_about_to_remove_callback callback m = record m { callback_set = callback }

  -- Nothing calls this one.
  unfoldable pub set_notification_queue_changed_callback : Bool → Model C → Model C
  set_notification_queue_changed_callback callback m = record m { queue_changed_set = callback }

  count_in : List ℕ → ℕ → ℕ
  count_in [] count = count
  count_in (r ∷ rs) count = count_in rs (count + 1)

  -- size_t: a count of live blocks, so it cannot wrap
  unfoldable pub get_notifications_total_count : Model C → ℕ
  unfolding count_in
  get_notifications_total_count m = count_in (entries m.reminders_list) 0

  unfoldable pub is_notifications_list_empty : Model C → Bool
  is_notifications_list_empty m = list_empty m.reminders_list

  unfoldable pub get_notification_username : ℕ → Model C → Option String
  get_notification_username r m = do
    e ← m.reminders r
    u ← e.belongs_to
    x ← m.users u
    some x.user_name

  unfoldable pub get_notification_text : ℕ → Model C → Option String
  get_notification_text r m = do e ← m.reminders r; some e.notification_text

  unfoldable pub show_users_in : List ℕ → Model C → Option (List String)
  show_users_in [] m = some []
  show_users_in (u ∷ us) m = do x ← m.users u; rest ← show_users_in us m; some (x.user_name ∷ rest)

  -- the arguments of the lines that show_all_users prints
  unfoldable pub show_all_users : Model C → Option (List String)
  unfolding show_users_in
  show_all_users m = show_users_in (entries m.users_list) m

  unfoldable pub show_reminders_in : List ℕ → Model C → Option (List (String × ℤ))
  show_reminders_in [] m = some []
  show_reminders_in (r ∷ rs) m = do
    e ← m.reminders r
    rest ← show_reminders_in rs m
    some ((e.notification_text, e.ellapse_time) ∷ rest)

  -- the arguments of the lines that show_all_reminders prints
  unfoldable pub show_all_reminders : Model C → Option (List (String × ℤ))
  show_all_reminders m = show_reminders_in (entries m.reminders_list) m

  -- the same of show_user_reminders, whose lines are also numbered from 1
  unfoldable pub show_user_reminders : String → Model C → Option (List (String × ℤ))
  show_user_reminders name m = do
    found ← find_user_entry lib name m
    elim found [
      | none ↦ some []
      | some u ↦ do x ← m.users u; show_reminders_in (entries x.notifications_list) m
    ]
