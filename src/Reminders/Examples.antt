-- ===== src/Reminders/Examples.antt =====
-- Runs of the reminders model on the concrete list library, and the theorems at their states.
use embedded_basecamp.Prelude.{
  ℕ, ◌≡◌, refl, true, false, none, some, List, [], ◌∷◌, ◌++◌, arith, mem, inl, inr, ◌==◌,
  Bool-cases,
}
use embedded_basecamp.Prelude.Int.{pos, decrement}
use embedded_basecamp.Links.Sequence.{sequence_lib}
use embedded_basecamp.Reminders.{User, Event, alert, Model, initial}
use embedded_basecamp.Reminders.Users.{find_user_in, find_user_entry, remove_user}
use embedded_basecamp.Reminders.Notifications.{
  insertion_point, insert_reminder_entry, notify_user, new_reminder, add_user_reminder,
}
use embedded_basecamp.Reminders.Timer.{
  forget_in_owner, expire, handle_reminder_expired, tick_entry, tick_in, handle_timer_tick,
}
use embedded_basecamp.Reminders.Invariant.{IsValid, initial-IsValid}
use embedded_basecamp.Reminders.Names.{UniqueNames, enrolled, enrolled-IsValid}
use embedded_basecamp.Reminders.Insert.{reminder, added, added-IsValid}
use embedded_basecamp.Reminders.Due.{CanTick}
use embedded_basecamp.Reminders.Tick.{Ticked, handle_timer_tick-Ticked}
use embedded_basecamp.Reminders.Countdown.{Positive, ticks, countdown}
use embedded_basecamp.Reminders.Removal.{remove_user-tick_fault}

abbrev lib_initial : Model (List ℕ)
lib_initial = initial sequence_lib

-- A user at address 7, then two reminders at 21 and 22.
abbrev alone : Model (List ℕ)
alone = enrolled sequence_lib lib_initial 7 "Alex"

alone-IsValid : IsValid sequence_lib alone
alone-IsValid =
    enrolled-IsValid sequence_lib lib_initial "Alex" 7 (initial-IsValid sequence_lib) refl

abbrev alex : User (List ℕ)
alex = record { user_name = "Alex"; notifications_list = [] }

abbrev one : Model (List ℕ)
one = added sequence_lib alone 7 21 alex (reminder 7 "Buy sausages" (pos 2)) (21 ∷ [])

one-IsValid : IsValid sequence_lib one
one-IsValid =
    added-IsValid sequence_lib alone 7 21 alex "Buy sausages" (pos 2) alone-IsValid refl refl
      (21 ∷ []) refl

abbrev alex_one : User (List ℕ)
alex_one = record alex { notifications_list = 21 ∷ [] }

abbrev two : Model (List ℕ)
two = added sequence_lib one 7 22 alex_one (reminder 7 "Buy cucumbers" (pos 1)) (22 ∷ 21 ∷ [])

two-IsValid : IsValid sequence_lib two
two-IsValid =
    added-IsValid sequence_lib one 7 22 alex_one "Buy cucumbers" (pos 1) one-IsValid refl refl
      (22 ∷ 21 ∷ []) refl

add_two :
    add_user_reminder sequence_lib (some 22) true "Alex" "Buy cucumbers" (pos 1) one ≡ some two
unfolding add_user_reminder find_user_entry find_user_in new_reminder notify_user
    insert_reminder_entry insertion_point
add_two = refl

found_alex : find_user_entry sequence_lib "Alex" one ≡ some (some 7)
unfolding find_user_entry find_user_in
found_alex = refl

found_void : find_user_entry sequence_lib "Void" one ≡ some none
unfolding find_user_entry find_user_in
found_void = refl

-- The remaining theorems, at these states.
new_void : find_user_entry sequence_lib "Void" alone ≡ some none
unfolding find_user_entry find_user_in
new_void = refl

alone_apart : UniqueNames alone (7 ∷ [])
alone_apart name a b qa qb na nb = ground arith

-- Both reminders can tick.
two_queue : (r : ℕ) → mem r (22 ∷ 21 ∷ []) ≡ true → CanTick (two.reminders r)
two_queue r h = ground arith

handle_timer_tick-Ticked_example :
    (m' : Model (List ℕ)) × (handle_timer_tick sequence_lib two ≡ some m')
    × (m'.reminders_list ≡ 21 ∷ [])
    × Ticked sequence_lib two.reminders (22 ∷ 21 ∷ []) two m'
handle_timer_tick-Ticked_example = handle_timer_tick-Ticked sequence_lib two two-IsValid two_queue

-- After the round reminder 22 is gone.
tick_after :
    (m' : Model (List ℕ)) × (handle_timer_tick sequence_lib two ≡ some m')
    × (m'.reminders_list ≡ 21 ∷ [])
unfolding handle_timer_tick tick_in tick_entry handle_reminder_expired expire forget_in_owner
    decrement
tick_after = (_, refl, refl)

two-Positive : Positive sequence_lib two
two-Positive r h = elim (Bool-cases (22 == r)) [
  | inl k ↦
      let e : 22 ≡ r = ground arith in
      rw (← e) (reminder 7 "Buy cucumbers" (pos 1), refl, omega arith)
  | inr k ↦
      let e : 21 ≡ r = ground arith in
      rw (← e) (reminder 7 "Buy sausages" (pos 2), refl, omega arith)
]

countdown_example :
    (m1 m2 : Model (List ℕ)) × (ticks sequence_lib 1 two ≡ some m1)
    × (mem 21 m1.reminders_list ≡ true)
    × (m1.reminders 21 ≡ some (reminder 7 "Buy sausages" (pos 1)))
    × (handle_timer_tick sequence_lib m1 ≡ some m2)
    × (mem 21 m2.reminders_list ≡ false)
    × (m2.reminders 21 ≡ none)
    × ((before after : List Event) × (m2.events ≡ before ++ alert "Buy sausages" ∷ after))
countdown_example =
    countdown sequence_lib 1 two 21 (reminder 7 "Buy sausages" (pos 2)) two-IsValid two-Positive
      refl refl refl

found_in_two : find_user_entry sequence_lib "Alex" two ≡ some (some 7)
unfolding find_user_entry find_user_in
found_in_two = refl

abbrev alex_two : User (List ℕ)
alex_two = record alex { notifications_list = 21 ∷ 22 ∷ [] }

remove_user-tick_fault_example :
    (m' : Model (List ℕ)) × (remove_user sequence_lib "Alex" two ≡ some m')
    × (handle_timer_tick sequence_lib m' ≡ none)
remove_user-tick_fault_example =
    remove_user-tick_fault sequence_lib two "Alex" 7 22 (reminder 7 "Buy cucumbers" (pos 1))
      two-IsValid refl refl refl refl refl refl refl
