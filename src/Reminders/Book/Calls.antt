-- ===== src/Reminders/Book/Calls.antt =====
-- What each call of the reminders model makes of its pages.
use Prim.Native.String.{String}
use embedded_basecamp.Prelude.{
  ℕ, ◌≡◌, refl, Bool, true, false, Option, none, some, List, [], ◌∷◌, ◌++◌, ◌&&◌, if◌then◌else◌,
  arith, ◌==◌, Bool-cases, Option-cases, inl, inr, ◌∙◌,
}
use embedded_basecamp.Prelude.Int.{ℤ, pos, ◌≤ℤ◌}
use embedded_basecamp.Prelude.Memory.{is_some}
use embedded_basecamp.Links.{ListLib}
use embedded_basecamp.Reminders.{User, Model}
use embedded_basecamp.Reminders.Users.{find_user_entry, is_user_exists, add_new_user}
use embedded_basecamp.Reminders.Notifications.{add_user_reminder}
use embedded_basecamp.Reminders.Invariant.{queue, notes_of, IsValid}
use embedded_basecamp.Reminders.Names.{
  find_user_entry-Answers, enrolled, enrolled-IsValid, enrolled-notes, listed, unlisted,
}
use embedded_basecamp.Reminders.Order.{insert_sorted}
use embedded_basecamp.Reminders.Countdown.{Positive}
use embedded_basecamp.Reminders.Insert.{
  reminder, added, added-IsValid, added-notes, new_reminder-added, fresh-notes, mem-insert_sorted,
}
use embedded_basecamp.Reminders.Accounts.{IsAccounted, enrolled-IsAccounted, added-IsAccounted}
use embedded_basecamp.Reminders.Book.{
  Page, enroll, remind, turn, turn_if, known, amend, notes_in, book,
}
use embedded_basecamp.Reminders.Book.Pages.{
  notes_in_ext, notes_in-append, amend_absent, pages_in-append, known-found, found-mem, notes_at,
  pages_in_ext, pages_in-amend,
}

module _ {C : Type 0} (lib : ListLib C) where
  open lib use {entries, entries-init_list_head}

  -- A model in which the timer can go on.
  pub record Ready (m : Model C) : Type 0 where
    pub valid : IsValid lib m
    pub positive : Positive lib m

  -- A listed user found by name, with the block.
  pub found_block :
      (m : Model C) (name : String) (u : ℕ)
      → IsValid lib m
      → find_user_entry lib name m ≡ some (some u)
      → (x : User C) × (m.users u ≡ some x)
  unfolding find_user_entry
  found_block m name u v found = elim (Option-cases (m.users u)) [
    | inl h ↦
        absurd
          (ground (arith, v.users_live u (found-mem lib m name (entries m.users_list) u found)))
    | inr (x, h) ↦ (x, h)
  ]

  pub known-book :
      (m : Model C) (name : String) (found : Option ℕ)
      → find_user_entry lib name m ≡ some found
      → known name (book lib m) ≡ is_some found
  unfolding find_user_entry
  known-book m name found h = known-found lib m name (entries m.users_list) found h

  book-enrolled :
      (m : Model C) (name : String) (u : ℕ)
      → IsValid lib m
      → m.users u ≡ none
      → book lib (enrolled lib m u name) ≡ book lib m ++ record { owner = name; notes = [] } ∷ []
  book-enrolled m name u v fresh =
      let m' = enrolled lib m u name in
      let out = unlisted lib m name u v fresh in
      rw
        (
          listed lib m name u v fresh,
          pages_in-append lib m' (entries m.users_list) (u ∷ []),
          pages_in_ext lib m m' (entries m.users_list) (λ w h. ground arith)
              (λ w h. rw (enrolled-notes lib m name u v fresh w) refl),
        )
        (ground (arith, entries-init_list_head))

  -- What a call on `m` leaves: a ready model with the pages `ps`, that holds no block outside of its
  -- lists if `m` does not, with the callback that is registered in `m`.
  pub record Left (m : Model C) (answer : Option (Model C)) (ps : List Page) : Type 0 where
    pub after : Model C
    pub run : answer ≡ some after
    pub ready : Ready after
    pub pages : book lib after ≡ ps
    pub accounts : IsAccounted lib m → IsAccounted lib after
    pub same_callback : after.callback_set ≡ m.callback_set

  pub unchanged :
      {answer : Option (Model C)} {m : Model C}
      → Ready m
      → answer ≡ some m
      → (granted : Bool) (ps : List Page) → (granted ≡ true → ps ≡ book lib m)
      → Left m answer (if granted then ps else book lib m)
  unchanged {answer} {m} ready run granted ps h = record {
    after = m;
    run = run;
    ready = ready;
    pages = ground arith;
    accounts = λ a. a;
    same_callback = refl;
  }

  -- On a ready model whose allocator answers a free block or none, add_new_user does not fault,
  -- leaves a ready model, and adds a page at the end if the name has none and the memory is granted.
  pub add_new_user-Left :
      (block : Option ℕ) (buffer : Bool) (name : String) (m : Model C)
      → Ready m
      → ((u : ℕ) → block ≡ some u → m.users u ≡ none)
      → Left m
          (add_new_user lib block buffer name m)
          (turn_if (is_some block && buffer) (enroll name) (book lib m))
  unfolding add_new_user is_user_exists
  add_new_user-Left block buffer name m ready free =
      let (found, run, ans) = find_user_entry-Answers lib m name ready.valid in
      answered block buffer found run (known-book m name found run) free
    where
      answered :
          (block : Option ℕ) (buffer : Bool) (found : Option ℕ)
          → find_user_entry lib name m ≡ some found
          → known name (book lib m) ≡ is_some found
          → ((u : ℕ) → block ≡ some u → m.users u ≡ none)
          → Left m
              (add_new_user lib block buffer name m)
              (turn_if (is_some block && buffer) (enroll name) (book lib m))
      answered block buffer (some w) run k free =
          unchanged ready (rw run) (is_some block && buffer) (turn (enroll name) (book lib m))
            (λ h. rw k refl)
      answered none buffer none run k free =
          unchanged ready (rw run) false (turn (enroll name) (book lib m))
            (λ h. absurd (ground arith))
      answered (some u) false none run k free =
          unchanged ready (rw run) false (turn (enroll name) (book lib m))
            (λ h. absurd (ground arith))
      answered (some u) true none run k free = record {
        after = enrolled lib m u name;
        run = rw run;
        ready = record {
          valid = enrolled-IsValid lib m name u ready.valid (free u refl);
          positive = ready.positive;
        };
        pages = book-enrolled m name u ready.valid (free u refl) ∙ rw k refl;
        accounts = enrolled-IsAccounted lib m name u ready.valid (free u refl);
        same_callback = refl;
      }

  module _ (m : Model C) (u r : ℕ) (x : User C) (title : String) (t : ℤ) (v : IsValid lib m)
      (live : m.users u ≡ some x) (fresh : m.reminders r ≡ none) (c : C) where
    abbrev m' : Model C
    m' = added lib m u r x (reminder u title t) c

    old_notes : (w : ℕ) → notes_in m'.reminders (notes_of lib (m.users w)) ≡ notes_at lib m w
    old_notes w =
        notes_in_ext m.reminders m'.reminders (notes_of lib (m.users w))
          (λ s h. ground (arith, fresh-notes lib m r w v fresh))

    own_notes :
        entries c ≡ insert_sorted m.reminders r t (queue lib m)
        → notes_of lib (m'.users u) ≡ notes_of lib (m.users u) ++ r ∷ []
    own_notes sorted = ground (arith, added-notes lib m u r x title t v live fresh c sorted u)

    book-added :
        (name : String)
        → entries c ≡ insert_sorted m.reminders r t (queue lib m)
        → find_user_entry lib name m ≡ some (some u)
        → book lib m' ≡ amend name (λ ns. ns ++ record { text = title; time = t } ∷ []) (book lib m)
    unfolding find_user_entry
    book-added name sorted found =
        pages_in-amend lib m m' (λ w. ground arith) name u _ (entries m.users_list) found
          v.users_distinct
          (rw
            (
              own_notes sorted,
              notes_in-append m'.reminders (notes_of lib (m.users u)) (r ∷ []),
              old_notes u,
            )
            (ground arith))
          (λ w h. rw (added-notes lib m u r x title t v live fresh c sorted w, h) (old_notes w))

    added-Positive :
        pos 1 ≤ℤ t
        → entries c ≡ insert_sorted m.reminders r t (queue lib m)
        → Positive lib m
        → Positive lib m'
    added-Positive p sorted positive s q = elim (Bool-cases (s == r)) [
      | inl h ↦ (reminder u title t, rw h refl, p)
      | inr h ↦
          let q' = rw (sorted, mem-insert_sorted m.reminders s r t (queue lib m)) at q in
          rw h (positive s (ground arith))
    ]

  -- The same of add_user_reminder with a positive time: the reminder is added to the first page of
  -- the name.
  pub add_user_reminder-Left :
      (block : Option ℕ) (buffer : Bool) (name title : String) (t : ℤ) (m : Model C)
      → Ready m
      → pos 1 ≤ℤ t
      → ((r : ℕ) → block ≡ some r → m.reminders r ≡ none)
      → Left m
          (add_user_reminder lib block buffer name title t m)
          (turn_if (is_some block && buffer) (remind name title t) (book lib m))
  unfolding add_user_reminder
  add_user_reminder-Left block buffer name title t m ready p free =
      let (found, run, ans) = find_user_entry-Answers lib m name ready.valid in
      answered block buffer found run (known-book m name found run) free
    where
      answered :
          (block : Option ℕ) (buffer : Bool) (found : Option ℕ)
          → find_user_entry lib name m ≡ some found
          → known name (book lib m) ≡ is_some found
          → ((r : ℕ) → block ≡ some r → m.reminders r ≡ none)
          → Left m
              (add_user_reminder lib block buffer name title t m)
              (turn_if (is_some block && buffer) (remind name title t) (book lib m))
      answered block buffer none run k free =
          unchanged ready (rw run) (is_some block && buffer)
            (turn (remind name title t) (book lib m)) (λ h. amend_absent name _ (book lib m) k)
      answered none buffer (some u) run k free =
          unchanged ready (rw run) false (turn (remind name title t) (book lib m))
            (λ h. absurd (ground arith))
      answered (some r) false (some u) run k free =
          unchanged ready (rw run) false (turn (remind name title t) (book lib m))
            (λ h. absurd (ground arith))
      answered (some r) true (some u) run k free =
          let (x, live) = found_block m name u ready.valid run in
          let (c, made, sorted) =
            new_reminder-added lib m u r x title t ready.valid live (free r refl) in
          record {
            after = added lib m u r x (reminder u title t) c;
            run = rw run made;
            ready = record {
              valid = added-IsValid lib m u r x title t ready.valid live (free r refl) c sorted;
              positive =
                  added-Positive m u r x title t ready.valid live (free r refl) c p sorted
                    ready.positive;
            };
            pages = book-added m u r x title t ready.valid live (free r refl) c name sorted run;
            accounts = added-IsAccounted lib m u r x title t c live sorted;
            same_callback = refl;
          }
