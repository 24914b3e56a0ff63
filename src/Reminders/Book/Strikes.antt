-- ===== src/Reminders/Book/Strikes.antt =====
-- What remove_user_notification makes of the pages.
use Prim.Native.String.{String}
use embedded_basecamp.Prelude.{
  ℕ, zero, suc, ◌≤◌, ◌≡◌, refl, true, false, Option, none, some, List, [], ◌∷◌, ◌++◌, length, arith,
  mem, ◌==◌, Option-cases, ◌⊎◌, inl, inr, ap, ◌∙◌, sym, mem-append, mem-erase, Distinct-append_cons,
  subst,
}
use embedded_basecamp.Prelude.Int.{ℤ, pos, negsuc, ◌≤ℤ◌, eqb_ℤ, int_min}
use embedded_basecamp.Prelude.Memory.{Blocks, is_some}
use embedded_basecamp.Links.{ListLib}
use embedded_basecamp.Reminders.{Reminder, User, Model}
use embedded_basecamp.Reminders.Users.{find_user_entry}
use embedded_basecamp.Reminders.Notifications.{remove_user_notification}
use embedded_basecamp.Reminders.Invariant.{
  queue, notes_of, IsValid, unlinked, unlinked-queue, unlinked-IsValid,
}
use embedded_basecamp.Reminders.Names.{find_user_entry-Answers}
use embedded_basecamp.Reminders.Countdown.{Positive}
use embedded_basecamp.Reminders.Remove.{
  numbered-own, numbered-notes, remove_user_notification-unlinked, remove_user_notification-absent,
}
use embedded_basecamp.Reminders.Book.{
  Note, strike, turn, amend, remove_nth, without, notes_in, book,
}
use embedded_basecamp.Reminders.Book.Pages.{notes_in_ext, amend_absent, notes_at, pages_in-amend}
use embedded_basecamp.Reminders.Accounts.{unlinked-IsAccounted}
use embedded_basecamp.Reminders.Book.Calls.{Ready, Left, known-book, found_block}

-- Entry number k, counted from 0, or none.
numbered :
    (k : ℕ) (xs : List ℕ)
    → ((before : List ℕ) × (after : List ℕ) × (r : ℕ) × (xs ≡ before ++ r ∷ after)
        × (length before ≡ k))
      ⊎ (length xs ≤ k)
numbered k [] = inr (omega arith)
numbered zero (x ∷ xs) = inl ([], xs, x, refl, refl)
numbered (suc k) (x ∷ xs) = elim (numbered k xs) [
  | inl (before, after, r, eq, len) ↦
      inl (x ∷ before, after, r, ap (λ ys. x ∷ ys) eq, ap (λ n. suc n) len)
  | inr h ↦ inr (omega arith)
]

remove_nth-notes_in :
    (R : Blocks Reminder) (xs ys : List ℕ) (r : ℕ)
    → ((s : ℕ) → mem s (xs ++ r ∷ ys) ≡ true → is_some (R s) ≡ true)
    → remove_nth (length xs) (notes_in R (xs ++ r ∷ ys)) ≡ notes_in R (xs ++ ys)
remove_nth-notes_in R [] ys r live = elim (Option-cases (R r)) [
  | inl h ↦ absurd (ground (arith, live r (ground arith)))
  | inr (e, h) ↦ rw h refl
]
remove_nth-notes_in R (x ∷ xs) ys r live = elim (Option-cases (R x)) [
  | inl h ↦ absurd (ground (arith, live x (ground arith)))
  | inr (e, h) ↦ rw (h, remove_nth-notes_in R xs ys r (λ s k. live s (ground arith))) refl
]

remove_nth_beyond :
    (R : Blocks Reminder) (xs : List ℕ) (k : ℕ)
    → ((s : ℕ) → mem s xs ≡ true → is_some (R s) ≡ true)
    → length xs ≤ k
    → remove_nth k (notes_in R xs) ≡ notes_in R xs
remove_nth_beyond R [] k live h = refl
remove_nth_beyond R (x ∷ xs) zero live h = absurd (omega arith)
remove_nth_beyond R (x ∷ xs) (suc k) live h = elim (Option-cases (R x)) [
  | inl l ↦ absurd (ground (arith, live x (ground arith)))
  | inr (e, l) ↦ rw (l, remove_nth_beyond R xs k (λ s q. live s (ground arith)) (omega arith)) refl
]

module _ {C : Type 0} (lib : ListLib C) where
  open lib use {entries}

  note_live :
      (m : Model C) (u s : ℕ)
      → IsValid lib m
      → mem s (notes_of lib (m.users u)) ≡ true
      → is_some (m.reminders s) ≡ true
  note_live m u s v h = let (q, o) = v.notes_queued u s h in ground arith

  module _ (m : Model C) (name : String) (u : ℕ) (x : User C) (v : IsValid lib m)
      (found : find_user_entry lib name m ≡ some (some u)) (live : m.users u ≡ some x)
      (xs ys : List ℕ) (r : ℕ) (at : entries x.notifications_list ≡ xs ++ r ∷ ys) where
    abbrev m' : Model C
    m' = unlinked lib m u x r m.events

    struck_notes : notes_at lib m' u ≡ remove_nth (length xs) (notes_at lib m u)
    struck_notes =
        let apart = Distinct-append_cons r xs ys (rw (live, at) at (v.notes_distinct u)) in
        let whole : notes_of lib (m.users u) ≡ xs ++ r ∷ ys = rw live at in
        rw
          (
            numbered-notes lib m name u x v found live xs ys r at,
            whole,
            remove_nth-notes_in m.reminders xs ys r (λ s h. note_live m u s v (rw whole h)),
          )
          (notes_in_ext m.reminders m'.reminders (xs ++ ys)
            (λ s h. ground (arith, mem-append r xs ys)))

    kept_notes : (w : ℕ) → (w == u) ≡ false → notes_at lib m' w ≡ notes_at lib m w
    kept_notes w h =
        let (q, o) = numbered-own lib m name u x v found live xs ys r at in
        rw h (
          notes_in_ext m.reminders m'.reminders (notes_of lib (m.users w))
            (λ s k. ground (arith, v.notes_queued w s k)))

    book-unlinked :
        (f : List Note → List Note)
        → f (notes_at lib m u) ≡ remove_nth (length xs) (notes_at lib m u)
        → book lib m' ≡ amend name f (book lib m)
    unfolding find_user_entry
    book-unlinked f h =
        pages_in-amend lib m m' (λ w. ground arith) name u f (entries m.users_list) found
          v.users_distinct (struck_notes ∙ sym h) kept_notes

    unlinked-Positive : Positive lib m → Positive lib m'
    unlinked-Positive positive s k =
        let (q, o) = numbered-own lib m name u x v found live xs ys r at in
        let k' =
          rw
            (
              unlinked-queue lib {m = m} u x r m.events live q o v,
              mem-erase s r (queue lib m) v.queue_distinct,
            )
            at k in
        let (e, l, p) = positive s (ground arith) in (e, ground arith, p)

    struck :
        Ready lib m
        → Left lib m
            (remove_user_notification lib name (pos (suc (length xs))) m)
            (turn (strike name (pos (suc (length xs)))) (book lib m))
    struck ready =
        let (q, o) = numbered-own lib m name u x v found live xs ys r at in
        record {
          after = m';
          run = remove_user_notification-unlinked lib m name u x v found live xs ys r at;
          ready = record {
            valid = unlinked-IsValid lib u x r m.events live q o v;
            positive = unlinked-Positive ready.positive;
          };
          pages = book-unlinked (without (pos (suc (length xs)))) refl;
          accounts = unlinked-IsAccounted lib m u r x m.events live q o v;
          same_callback = refl;
        }

  module _ (m : Model C) (name : String) (number : ℤ) (ready : Ready lib m)
      (fits : eqb_ℤ number int_min ≡ false) where
    -- A number that is not one of the user's leaves the pages.
    missed :
        (u : ℕ) (x : User C)
        → find_user_entry lib name m ≡ some (some u)
        → m.users u ≡ some x
        → (number ≤ℤ pos 0) ⊎ (pos (suc (length (entries x.notifications_list))) ≤ℤ number)
        → without number (notes_at lib m u) ≡ notes_at lib m u
        → Left lib m
            (remove_user_notification lib name number m)
            (turn (strike name number) (book lib m))
    unfolding find_user_entry
    missed u x found live out same = record {
      after = m;
      run = remove_user_notification-absent lib m name u x ready.valid found live number fits out;
      ready = ready;
      pages =
          pages_in-amend lib m m (λ w. refl) name u (without number) (entries m.users_list) found
            ready.valid.users_distinct (sym same) (λ w h. refl);
      accounts = λ a. a;
      same_callback = refl;
    }

    nobody :
        find_user_entry lib name m ≡ some none
        → Left lib m
            (remove_user_notification lib name number m)
            (turn (strike name number) (book lib m))
    unfolding remove_user_notification
    nobody found = record {
      after = m;
      run = rw found refl;
      ready = ready;
      pages =
          sym (amend_absent name (without number) (book lib m) (known-book lib m name none found));
      accounts = λ a. a;
      same_callback = refl;
    }

    beyond :
        (k u : ℕ) (x : User C)
        → m.users u ≡ some x
        → length (entries x.notifications_list) ≤ k
        → remove_nth k (notes_at lib m u) ≡ notes_at lib m u
    beyond k u x live h =
        let whole : notes_of lib (m.users u) ≡ entries x.notifications_list = rw live refl in
        rw whole (
          remove_nth_beyond m.reminders (entries x.notifications_list) k
            (λ s q. note_live m u s ready.valid (rw whole q)) h)

  -- On a ready model, and a number other than INT_MIN, remove_user_notification does not fault,
  -- leaves a ready model, and takes the note of the number off the first page of the name.
  pub remove_user_notification-Left :
      (m : Model C) (name : String) (number : ℤ)
      → Ready lib m
      → eqb_ℤ number int_min ≡ false
      → Left lib m
          (remove_user_notification lib name number m)
          (turn (strike name number) (book lib m))
  remove_user_notification-Left m name number ready fits =
      let (found, run, ans) = find_user_entry-Answers lib m name ready.valid in
      answered found run number fits
    where
      struck_by :
          (u : ℕ)
          → find_user_entry lib name m ≡ some (some u)
          → (x : User C) → m.users u ≡ some x
          → (number : ℤ) → eqb_ℤ number int_min ≡ false
          → Left lib m
              (remove_user_notification lib name number m)
              (turn (strike name number) (book lib m))
      struck_by u run x live (pos zero) fits =
          missed m name (pos zero) ready fits u x run live (inl (omega arith)) refl
      struck_by u run x live (negsuc n) fits =
          missed m name (negsuc n) ready fits u x run live (inl (omega arith)) refl
      struck_by u run x live (pos (suc k)) fits = elim (numbered k (entries x.notifications_list)) [
        | inl (before, after, r, at, len) ↦
            subst
              (λ n.
                Left lib m (remove_user_notification lib name (pos (suc n)) m)
                  (turn (strike name (pos (suc n))) (book lib m)))
              len (struck m name u x ready.valid run live before after r at ready)
        | inr h ↦
            missed m name (pos (suc k)) ready fits u x run live (inr (omega arith))
              (beyond m name (pos (suc k)) ready fits k u x live h)
      ]

      answered :
          (found : Option ℕ)
          → find_user_entry lib name m ≡ some found
          → (number : ℤ) → eqb_ℤ number int_min ≡ false
          → Left lib m
              (remove_user_notification lib name number m)
              (turn (strike name number) (book lib m))
      answered none run number fits = nobody m name number ready fits run
      answered (some u) run number fits =
          let (x, live) = found_block lib m name u ready.valid run in
          struck_by u run x live number fits
