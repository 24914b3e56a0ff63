-- ===== src/Reminders/Book/Examples.antt =====
-- A sequence of calls of the reminders model, and a round of the kernel's timer.
use embedded_basecamp.Prelude.{
  ℕ, ◌≡◌, refl, true, Option, none, some, List, [], ◌∷◌, if◌then◌else◌, arith, Option-cases, inl,
  inr,
}
use embedded_basecamp.Prelude.Int.{pos}
use embedded_basecamp.Prelude.Memory.{is_some}
use embedded_basecamp.Links.Sequence.{sequence_lib}
use embedded_basecamp.Reminders.{Model, initial}
use embedded_basecamp.Reminders.Timer as User
use embedded_basecamp.Reminders.Kernel.{handle_timer_tick, handle_timer_tick-User}
use embedded_basecamp.Reminders.Book.{Op, enroll, remind, strike, second, turns, book}
use embedded_basecamp.Reminders.Book.Calls.{Ready}
use embedded_basecamp.Reminders.Book.Client.{
  Supply, AllAllowed, run, grants, run-turns, initial-Ready,
}

-- One block for users and two for reminders.
abbrev user_block : Model (List ℕ) → Option ℕ
user_block m = if is_some (m.users 7) then none else some 7

abbrev reminder_block : Model (List ℕ) → Option ℕ
reminder_block m =
    if is_some (m.reminders 21)
    then (if is_some (m.reminders 22) then none else some 22)
    else some 21

abbrev start : Model (List ℕ)
start = initial sequence_lib

user_block_free : (m : Model (List ℕ)) (u : ℕ) → user_block m ≡ some u → m.users u ≡ none
user_block_free m u h = elim (Option-cases (m.users 7)) [
  | inl k ↦ let e : some 7 ≡ some u = rw k at h in ground arith
  | inr (x, k) ↦ let e : none ≡ some u = rw k at h in cc
]

reminder_block_free :
    (m : Model (List ℕ)) (r : ℕ) → reminder_block m ≡ some r → m.reminders r ≡ none
reminder_block_free m r h = elim (Option-cases (m.reminders 21)) [
  | inl k ↦ let e : some 21 ≡ some r = rw k at h in ground arith
  | inr (x, k) ↦ elim (Option-cases (m.reminders 22)) [
    | inl l ↦ let e : some 22 ≡ some r = rw (k, l) at h in ground arith
    | inr (y, l) ↦ let e : none ≡ some r = rw (k, l) at h in cc
  ]
]

abbrev supply : Supply (List ℕ)
supply = record {
  user_block = user_block;
  user_buffer = λ m. true;
  reminder_block = reminder_block;
  reminder_buffer = λ m. true;
  user_block_free = user_block_free;
  reminder_block_free = reminder_block_free;
}

-- The calls of test3 of task8, and two seconds.
abbrev calls : List Op
calls =
    enroll "Valenti"
    ∷ remind "Valenti" "Buy some food!" (pos 1000)
    ∷ remind "Valenti" "Buy some tomaaatos!" (pos 100)
    ∷ second
    ∷ strike "Valenti" (pos 2)
    ∷ strike "Valenti" (pos 1)
    ∷ second
    ∷ []

calls_allowed : AllAllowed calls
calls_allowed = (tt, (omega arith, (omega arith, (tt, (refl, (refl, (tt, tt)))))))

run-turns_example :
    (m' : Model (List ℕ)) × (run sequence_lib supply calls start ≡ some m')
    × Ready sequence_lib m'
    × (book sequence_lib m' ≡ turns calls (grants sequence_lib supply calls start) [])
run-turns_example =
    run-turns sequence_lib supply calls start (initial-Ready sequence_lib) calls_allowed

handle_timer_tick-User_example :
    handle_timer_tick sequence_lib start ≡ User.handle_timer_tick sequence_lib start
handle_timer_tick-User_example = handle_timer_tick-User sequence_lib start refl
