-- ===== src/Reminders/Tests/Examples.antt =====
-- The loading of the kernel's module of task8 with memory for one user and no reminder.
use embedded_basecamp.Prelude.{
  ℕ, ◌≡◌, true, Option, none, some, List, [], ◌∷◌, if◌then◌else◌, arith, Option-cases, inl, inr,
}
use embedded_basecamp.Prelude.Int.{pos}
use embedded_basecamp.Prelude.Memory.{is_some}
use embedded_basecamp.Links.Sequence.{sequence_lib}
use embedded_basecamp.Reminders.{Model, initial}
use embedded_basecamp.Reminders.Book.{enroll, remind, second}
use embedded_basecamp.Reminders.Book.Client.{Supply}
use embedded_basecamp.Reminders.Tests.{
  Call, op, removal, reminders_shown, user_shown, users_cleaned, reminders_cleaned,
}

abbrev user_block : Model (List ℕ) → Option ℕ
user_block m = if is_some (m.users 7) then none else some 7

abbrev reminder_block : Model (List ℕ) → Option ℕ
reminder_block m = if is_some (m.reminders 21) then none else some 21

user_block_free : (m : Model (List ℕ)) (u : ℕ) → user_block m ≡ some u → m.users u ≡ none
user_block_free m u h = elim (Option-cases (m.users 7)) [
  | inl k ↦ let e : some 7 ≡ some u = rw k at h in ground arith
  | inr (x, k) ↦ let e : none ≡ some u = rw k at h in cc
]

reminder_block_free :
    (m : Model (List ℕ)) (r : ℕ) → reminder_block m ≡ some r → m.reminders r ≡ none
reminder_block_free m r h = elim (Option-cases (m.reminders 21)) [
  | inl k ↦ let e : some 21 ≡ some r = rw k at h in ground arith
  | inr (x, k) ↦ let e : none ≡ some r = rw k at h in cc
]

abbrev supply : Supply (List ℕ)
supply = record {
  user_block = user_block;
  user_buffer = λ m. true;
  reminder_block = reminder_block;
  reminder_buffer = λ m. true;
  user_block_free = user_block_free;
  reminder_block_free = reminder_block_free;
}

abbrev start : Model (List ℕ)
start = initial sequence_lib

-- A user comes and goes, another one has two reminders, and both are cleaned up.
abbrev calls : List Call
calls =
    op (enroll "Void")
    ∷ removal "Void"
    ∷ op (enroll "Alex")
    ∷ op (remind "Alex" "Buy cucumbers" (pos 40))
    ∷ op (remind "Alex" "Buy sausages" (pos 150))
    ∷ op second
    ∷ reminders_shown
    ∷ user_shown "Alex"
    ∷ users_cleaned
    ∷ reminders_cleaned
    ∷ []
