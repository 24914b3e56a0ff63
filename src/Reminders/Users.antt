-- ===== src/Reminders/Users.antt =====
-- Users: find_user_entry, is_user_exists, add_new_user, remove_user and cleanup_users.
use Prim.Native.String.{String}
use text.Mathlib.Text.{◌==◌ as str_eq}
use embedded_basecamp.Prelude.{ℕ, Option, none, some, Bool, List, [], ◌∷◌, if◌then◌else◌}
use embedded_basecamp.Prelude.Partial.{◌>>=◌}
use embedded_basecamp.Prelude.Memory.{update, is_some}
use embedded_basecamp.Links.{ListLib}
use embedded_basecamp.Reminders.{Model}

module _ {C : Type 0} (lib : ListLib C) where
  open lib use {init_list_head, list_add_tail, list_del, entries}

  -- The loop of `find_user_entry` over the entries that are left; a fault at an entry that is freed.
  unfoldable pub find_user_in : List ℕ → String → Model C → Option (Option ℕ)
  find_user_in [] name m = some none
  find_user_in (u ∷ us) name m = do
    e ← m.users u
    if str_eq name e.user_name then some (some u) else find_user_in us name m

  unfoldable pub find_user_entry : String → Model C → Option (Option ℕ)
  find_user_entry name m = find_user_in (entries m.users_list) name m

  unfoldable pub is_user_exists : String → Model C → Option Bool
  is_user_exists name m = do found ← find_user_entry name m; some (is_some found)

  -- `block` is what the first `malloc` returns, and `buffer` says whether the second succeeds.
  unfoldable pub add_new_user :
      (block : Option ℕ) (buffer : Bool) → String → Model C → Option (Model C)
  add_new_user block buffer name m = do
    exists ← is_user_exists name m
    if exists then some m else elim block [
      | none ↦ some m
      | some u ↦
          if buffer
          then some (record m {
            users =
                update m.users u
                  (some (record { user_name = name; notifications_list = init_list_head }));
            users_list = list_add_tail u m.users_list;
          })
          else some m
    ]

  -- user_dtor, after list_del of the entry.
  unfoldable pub drop_user : ℕ → Model C → Model C
  drop_user u m = record m { users_list = list_del u m.users_list; users = update m.users u none }

  unfoldable pub remove_user_in : List ℕ → String → Model C → Option (Model C)
  remove_user_in [] name m = some m
  remove_user_in (u ∷ us) name m = do
    e ← m.users u
    remove_user_in us name (if str_eq e.user_name name then drop_user u m else m)

  unfoldable pub remove_user : String → Model C → Option (Model C)
  remove_user name m = remove_user_in (entries m.users_list) name m

  unfoldable pub cleanup_users_in : List ℕ → Model C → Option (Model C)
  cleanup_users_in [] m = some m
  cleanup_users_in (u ∷ us) m = do e ← m.users u; cleanup_users_in us (drop_user u m)

  unfoldable pub cleanup_users : Model C → Option (Model C)
  cleanup_users m = cleanup_users_in (entries m.users_list) m
