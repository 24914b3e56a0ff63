-- ===== src/Reminders.antt =====
-- The state of the reminders model, of
-- final_task/userspace_app/lvgl_lib/application_view/reminders_model/reminders_model.c: the two
-- global lists, the heap blocks of users and reminders, and what has been printed and reported.
pub mod Invariant
mod Examples
pub mod Removal
pub mod Countdown
pub mod Remove
pub mod Names
pub mod Insert
pub mod Order
pub mod Due
pub mod Tick
pub mod Users
pub mod Notifications
pub mod Timer
pub mod Queries
pub mod Book
pub mod Kernel
pub mod Accounts
pub mod Cleanup
pub mod Tests
use Prim.Native.String.{String}
use embedded_basecamp.Prelude.{ℕ, Option, none, some, Bool, List}
use embedded_basecamp.Prelude.Int.{ℤ}
use embedded_basecamp.Prelude.Memory.{Blocks}
use embedded_basecamp.Links.{ListLib}

-- An address stands for the structure and for the `list_head`s that it embeds. The heads
-- `reminder.list` and `reminder.user_notify_list` are the entry's places in two lists.
pub record Reminder : Type 0 where
  pub notification_text : String
  pub belongs_to : Option ℕ
  pub ellapse_time : ℤ

pub record User (C : Type 0) : Type 0 where
  pub user_name : String
  pub notifications_list : C

-- What the timer tells the outside: the alert line, and the call of
-- `callback_notification_is_about_to_be_removed` on a reminder.
pub data Event : Type 0 where
  alert : String → Event
  about_to_be_removed : ℕ → Event

pub record Model (C : Type 0) : Type 0 where
  pub users_list : C
  pub reminders_list : C
  pub users : Blocks (User C)
  pub reminders : Blocks Reminder
  -- whether `callback_notification_is_about_to_be_removed` and `callback_queue_changed` are registered
  pub callback_set : Bool
  pub queue_changed_set : Bool
  pub events : List Event

-- The state before the first call.
abbrev pub initial : {C : Type 0} → ListLib C → Model C
initial lib = record {
  users_list = lib.init_list_head;
  reminders_list = lib.init_list_head;
  users = λ _. none;
  reminders = λ _. none;
  callback_set = Bool.false;
  queue_changed_set = Bool.false;
  events = List.[];
}
