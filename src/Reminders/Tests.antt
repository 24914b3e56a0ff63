-- ===== src/Reminders/Tests.antt =====
-- The tests that the kernel's module of task8 runs when it is loaded: kernel_module/tests.h and
-- kernel_module/module_main.c.
pub mod Stages
pub mod Steps
pub mod Loaded
mod Examples
use Prim.Native.String.{String}
use embedded_basecamp.Prelude.{ℕ, Option, none, some, List, [], ◌∷◌, ◌++◌}
use embedded_basecamp.Prelude.Int.{ℤ, pos, negsuc}
use embedded_basecamp.Prelude.Partial.{◌>>=◌}
use embedded_basecamp.Links.{ListLib}
use embedded_basecamp.Reminders.{Model}
use embedded_basecamp.Reminders.Users.{remove_user, cleanup_users}
use embedded_basecamp.Reminders.Notifications.{cleanup_reminders}
use embedded_basecamp.Reminders.Queries.{show_all_users, show_all_reminders, show_user_reminders}
use embedded_basecamp.Reminders.Kernel.{handle_timer_tick}
use embedded_basecamp.Reminders.Book.{Op, enroll, remind, strike, second}
use embedded_basecamp.Reminders.Book.Client.{Supply, perform}

-- The calls of the tests. The printing of a line alone is left out.
pub data Call : Type 0 where
  op : Op → Call
  removal : String → Call
  users_shown : Call
  reminders_shown : Call
  user_shown : String → Call
  users_cleaned : Call
  reminders_cleaned : Call

module _ {C : Type 0} (lib : ListLib C) (supply : Supply C) where
  -- The show functions read the lists, and fault at an entry that is freed.
  abbrev pub act : Call → Model C → Option (Model C)
  act (op second) m = handle_timer_tick lib m
  act (op (enroll name)) m = perform lib supply (enroll name) m
  act (op (remind name title time)) m = perform lib supply (remind name title time) m
  act (op (strike name number)) m = perform lib supply (strike name number) m
  act (removal name) m = remove_user lib name m
  act users_shown m = do _ ← show_all_users lib m; some m
  act reminders_shown m = do _ ← show_all_reminders lib m; some m
  act (user_shown name) m = do _ ← show_user_reminders lib name m; some m
  act users_cleaned m = cleanup_users lib m
  act reminders_cleaned m = cleanup_reminders lib m

  abbrev pub acts : List Call → Model C → Option (Model C)
  acts [] m = some m
  acts (c ∷ cs) m = act c m >>= acts cs

abbrev pub user1 : String
user1 = "Valenti"

abbrev pub user2 : String
user2 = "Void"

abbrev pub user3 : String
user3 = "Alex"

unfoldable pub test1 : List Call
test1 =
    op (enroll user1)
    ∷ op (enroll user2)
    ∷ op (enroll user3)
    ∷ users_shown
    ∷ removal user2
    ∷ users_shown
    ∷ op (remind user1 "Buy some food!" (pos 1000))
    ∷ op (remind user1 "Buy some tomaaatos!" (pos 100))
    ∷ op (remind user1 "But extre beer" (pos 500))
    ∷ op (remind user3 "Buy cucumbers" (pos 40))
    ∷ op (remind user3 "Buy sausages" (pos 150))
    ∷ reminders_shown
    ∷ user_shown user1
    ∷ user_shown user2
    ∷ user_shown user3
    ∷ op (strike user1 (pos 3))
    ∷ user_shown user1
    ∷ reminders_shown
    ∷ users_cleaned
    ∷ reminders_cleaned
    ∷ []

abbrev enroll_all : List Call
enroll_all = op (enroll user1) ∷ op (enroll user2) ∷ op (enroll user3) ∷ []

unfoldable pub test2 : List Call
test2 = enroll_all ++ (enroll_all ++ (enroll_all ++ users_cleaned ∷ []))

unfoldable pub test3 : List Call
test3 =
    op (enroll user1)
    ∷ op (remind user1 "Buy some food!" (pos 1000))
    ∷ op (remind user1 "Buy some tomaaatos!" (pos 100))
    ∷ reminders_shown
    ∷ op (strike user1 (pos 2))
    ∷ op (strike user1 (pos 1))
    ∷ reminders_shown
    ∷ users_cleaned
    ∷ reminders_cleaned
    ∷ []

-- The body of the loop of test4.
abbrev round_shown : List Call
round_shown = user_shown user1 ∷ op second ∷ []

unfoldable pub test4 : List Call
test4 =
    op (enroll user1)
    ∷ op (remind user1 "Buy some food!" (pos 2))
    ∷ op (remind user1 "Buy some tomaaatos!" (pos 1))
    ∷ reminders_shown
    ∷ op second
    ∷ reminders_shown
    ∷ op second
    ∷ reminders_shown
    ∷ op (remind user1 "Buy something new, eventyally!" (pos 4))
    ∷ (round_shown ++ (round_shown ++ (round_shown ++ round_shown)))

-- The code is always -1, so that the module is not kept.
unfoldable pub reminder_module_init :
    {C : Type 0} (lib : ListLib C) → Supply C → Model C → Option (ℤ × Model C)
reminder_module_init lib supply m = do
  m1 ← acts lib supply test1 m
  m2 ← acts lib supply test2 m1
  m3 ← acts lib supply test3 m2
  m4 ← acts lib supply test4 m3
  some (negsuc 0, m4)
