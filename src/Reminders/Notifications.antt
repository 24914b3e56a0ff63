-- ===== src/Reminders/Notifications.antt =====
-- Reminders: add_user_reminder, insert_reminder_entry_to_global_list, remove_user_notification and
-- cleanup_reminders.
use Prim.Native.String.{String}
use embedded_basecamp.Prelude.{
  ℕ, ◌+◌, Option, none, some, Bool, true, false, List, [], ◌∷◌, if◌then◌else◌, ◌==◌, ◌&&◌,
}
use embedded_basecamp.Prelude.Int.{ℤ, pos, ltb_ℤ, eqb_ℤ, decrement}
use embedded_basecamp.Prelude.Partial.{◌>>=◌}
use embedded_basecamp.Prelude.Memory.{update}
use embedded_basecamp.Links.{ListLib}
use embedded_basecamp.Reminders.{Reminder, Model}
use embedded_basecamp.Reminders.Users.{find_user_entry}

-- The first entry whose time is greater than that of the new one.
unfoldable pub insertion_point : {C : Type 0} → List ℕ → ℤ → Model C → Option (Option ℕ)
insertion_point [] time m = some none
insertion_point (r ∷ rs) time m = do
  e ← m.reminders r
  if ltb_ℤ time e.ellapse_time then some (some r) else insertion_point rs time m

-- The position in a user's list by number: whether it was found, and the last entry visited.
unfoldable pub scan_user : List ℕ → ℤ → ℕ → Option ℕ → Bool × Option ℕ
scan_user [] idx counter it = (false, it)
scan_user (r ∷ rs) idx counter it =
    if eqb_ℤ (pos counter) idx then (true, some r) else scan_user rs idx (counter + 1) (some r)

abbrev pub same_entry : ℕ → Option ℕ → Bool
same_entry r none = false
same_entry r (some s) = r == s

unfoldable pub scan_global : List ℕ → Option ℕ → Bool
scan_global [] it = false
scan_global (r ∷ rs) it = if same_entry r it then true else scan_global rs it

module _ {C : Type 0} (lib : ListLib C) where
  open lib use {list_add_tail, list_add_before, list_del, entries}

  -- insert_reminder_entry_to_global_list
  unfoldable pub insert_reminder_entry : ℕ → ℤ → Model C → Option (Model C)
  insert_reminder_entry r time m = do
    point ← insertion_point (entries m.reminders_list) time m
    elim point [
      | none ↦ some (record m { reminders_list = list_add_tail r m.reminders_list })
      | some p ↦ some (record m { reminders_list = list_add_before r p m.reminders_list })
    ]

  -- list_add_tail(&new_reminder->user_notify_list, &p_user_entry->notifications_list)
  unfoldable pub notify_user : ℕ → ℕ → Model C → Option (Model C)
  notify_user u r m = do
    x ← m.users u
    let x' = record x { notifications_list = list_add_tail r x.notifications_list }
    some (record m { users = update m.users u (some x') })

  -- Both blocks are there. The last write, `belongs_to`, is made here with the block's other fields: nothing reads the
  -- field in between.
  unfoldable pub new_reminder : ℕ → ℕ → String → ℤ → Model C → Option (Model C)
  new_reminder u r title time m = do
    let e : Reminder = record {
      notification_text = title;
      belongs_to = some u;
      ellapse_time = time;
    }
    m' ← notify_user u r (record m { reminders = update m.reminders r (some e) })
    insert_reminder_entry r time m'

  unfoldable pub add_user_reminder :
      (block : Option ℕ) (buffer : Bool) → String → String → ℤ → Model C → Option (Model C)
  add_user_reminder block buffer name title time m = do
    found ← find_user_entry lib name m
    elim found [
      | none ↦ some m
      | some u ↦ elim block [
        | none ↦ some m
        | some r ↦ if buffer then new_reminder u r title time m else some m
      ]
    ]

  -- list_del(pos_user), list_del(pos_global), reminder_dtor
  unfoldable pub drop_notification : ℕ → ℕ → Model C → Option (Model C)
  drop_notification u r m = do
    x ← m.users u
    e ← m.reminders r
    let x' = record x { notifications_list = list_del r x.notifications_list }
    some (record m {
      users = update m.users u (some x');
      reminders_list = list_del r m.reminders_list;
      reminders = update m.reminders r none;
    })

  -- With `it` the entry that the first loop stopped at. The loops compare addresses.
  unfoldable pub remove_found : ℕ → Bool × Option ℕ → Model C → Option (Model C)
  remove_found u (found, none) m = some m
  remove_found u (found, some r) m =
      if found && scan_global (entries m.reminders_list) (some r)
      then drop_notification u r m
      else some m

  unfoldable pub remove_user_notification : String → ℤ → Model C → Option (Model C)
  remove_user_notification name number m = do
    found ← find_user_entry lib name m
    elim found [
      | none ↦ some m
      | some u ↦ do
        idx ← decrement number
        x ← m.users u
        remove_found u (scan_user (entries x.notifications_list) idx 0 none) m
    ]

  unfoldable pub cleanup_reminders_in : List ℕ → Model C → Option (Model C)
  cleanup_reminders_in [] m = some m
  cleanup_reminders_in (r ∷ rs) m = do
    e ← m.reminders r
    cleanup_reminders_in rs (record m {
      reminders_list = list_del r m.reminders_list;
      reminders = update m.reminders r none;
    })

  unfoldable pub cleanup_reminders : Model C → Option (Model C)
  cleanup_reminders m = cleanup_reminders_in (entries m.reminders_list) m
